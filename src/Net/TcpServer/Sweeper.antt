-- ===== src/Net/TcpServer/Sweeper.antt =====
-- The sweeper thread of src/net/tcp_server.cpp. The calls of other threads on the store while the
-- rounds of one wake-up run are left aside.
pub mod Ends
use tinykvcache.Prelude.{
  ℕ, zero, suc, ◌+◌, ◌≤◌, ◌<◌, ◌^◌, ◌≡◌, refl, ap, ◌∙◌, inl, inr, Bool, true, false, not, ◌&&◌,
  ◌||◌, List, [], ◌∷◌, Option, none, some, if◌then◌else◌, length, arith, Bool-cases, ◌==◌,
}
use tinykvcache.Prelude.Int.{ℤ, pos, negsuc}
use tinykvcache.Config.{is_not_positive}
use tinykvcache.Core.KvStore.{KvStore}
use tinykvcache.Core.KvStore.Tracking.{Inv}
use tinykvcache.Core.KvStore.Sweep.{sweep_expired, default_max_records}
use tinykvcache.Core.KvStore.Sweep.Keeps.{sweep_expired-Inv, sweep_le}
use tinykvcache.Core.KvStore.Sweep.Shrinks.{sweep_expired_shrinks}
use tinykvcache.Observability.ServerMetrics.{ServerMetrics, on_sweeper_run}

-- `StartSweeperThread`; `spawned` says whether the thread could be made. True: `m_sweeperRunning`.
pub data SweeperStart : Type 0 where
  not_wanted started already_running not_spawned : SweeperStart

unfoldable pub start_sweeper_thread : ℤ → Bool → Bool → Bool × SweeperStart
start_sweeper_thread interval spawned running =
    if is_not_positive interval
    then (running, not_wanted)
    else if running
    then (running, already_running)
    else if spawned
    then (true, started)
    else (false, not_spawned)

-- The `do` loop: round `i` runs at `now i`, and `stops i` is `m_stopRequested` behind it. `none`: the
-- fuel has run out.
pub sweep_rounds :
    ℕ → (ℕ → ℕ) → (ℕ → Bool) → ℕ → KvStore → ServerMetrics → Option (KvStore × ServerMetrics)
sweep_rounds zero now stops i s m = none
sweep_rounds (suc fuel) now stops i s m =
    let r = sweep_expired s (now i) default_max_records in
    let counted = on_sweeper_run r.1.removed m in
    let rest = sweep_rounds fuel now stops (i + 1) r.0 counted in
    if r.1.has_more_expired && not (stops i) then rest else some (r.0, counted)

-- What ends a wait: `m_sweeperRunning` is false, or the interval has passed.
pub data Wake : Type 0 where
  told_to_stop : Wake
  interval_passed : (ℕ → ℕ) → (ℕ → Bool) → Wake

and_wait :
    (KvStore × ServerMetrics → Option (KvStore × ServerMetrics))
    → Option (KvStore × ServerMetrics)
    → Option (KvStore × ServerMetrics)
and_wait next none = none
and_wait next (some r) = next r

-- `SweeperLoop`, over the ends of its waits; each round takes a record of the heap.
pub sweeper_loop : List Wake → KvStore → ServerMetrics → Option (KvStore × ServerMetrics)
unfolding sweep_rounds and_wait
sweeper_loop [] s m = some (s, m)
sweeper_loop (told_to_stop ∷ wakes) s m = some (s, m)
sweeper_loop (interval_passed now stops ∷ wakes) s m =
    and_wait (λ r. sweeper_loop wakes r.0 r.1)
      (sweep_rounds (suc (length s.expirations)) now stops 0 s m)
