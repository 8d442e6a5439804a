-- ===== src/Net/TcpServer/Sweeper/Ends.antt =====
-- How the sweeper of src/net/tcp_server.cpp comes to an end.
use tinykvcache.Prelude.{
  ℕ, zero, suc, ◌+◌, ◌≤◌, ◌<◌, ◌^◌, ◌≡◌, ◌⊎◌, refl, inl, inr, Bool, true, false, not, ◌&&◌, List,
  [], ◌∷◌, Option, some, if◌then◌else◌, length, arith,
}
use tinykvcache.Prelude.Equality.{bytes_eq}
use tinykvcache.Prelude.Map.{find}
use tinykvcache.Core.FrameCodec.{Bytes}
use tinykvcache.Core.KvStore.{KvStore, Entry, is_expired}
use tinykvcache.Core.KvStore.Tracking.{Inv}
use tinykvcache.Core.KvStore.Sweep.{sweep_expired, default_max_records}
use tinykvcache.Core.KvStore.Sweep.Keeps.{sweep_expired-Inv, sweep_le}
use tinykvcache.Core.KvStore.Sweep.Visible.{sweep_expired_complete}
use tinykvcache.Core.KvStore.Sweep.Shrinks.{sweep_expired_shrinks}
use tinykvcache.Net.TcpServer.Sweeper.{
  sweep_rounds, Wake, told_to_stop, interval_passed, and_wait, sweeper_loop,
}
use tinykvcache.Observability.ServerMetrics.{ServerMetrics, on_sweeper_run}

-- A store in order, with fewer than 2 ^ 64 keys.
pub record IsSound (s : KvStore) : Type 0 where
  pub inv : Inv s
  pub room : length s.entries < 2 ^ 64

sweep-IsSound : (s : KvStore) (now limit : ℕ) → IsSound s → IsSound (sweep_expired s now limit).0
sweep-IsSound s now limit h = record {
  inv = sweep_expired-Inv s now limit h.inv h.room;
  room = omega (arith, sweep_le s now limit, h.room);
}

-- No key that is left has expired.
abbrev pub IsClean : KvStore → ℕ → Type 0
IsClean s t =
    (key : Bytes) (entry : Entry) → find key s.entries ≡ some entry → is_expired entry t ≡ false

-- The rounds from round `i` on a store up to the last one, round `j`, and what they leave: behind each
-- round before the last, there was more to remove and the server had not been asked to stop.
pub data Ran (now : ℕ → ℕ) (stops : ℕ → Bool)
    : ℕ → KvStore → ServerMetrics → ℕ → KvStore → ServerMetrics → Type 0 where
  last_round :
      (i : ℕ) (s : KvStore) (m : ServerMetrics)
      → Ran now stops i s m i
          (sweep_expired s (now i) default_max_records).0
          (on_sweeper_run (sweep_expired s (now i) default_max_records).1.removed m)
  next_round :
      (i j : ℕ) (s t : KvStore) (m n : ServerMetrics)
      → (sweep_expired s (now i) default_max_records).1.has_more_expired ≡ true
      → stops i ≡ false
      → Ran now stops
          (i + 1)
          (sweep_expired s (now i) default_max_records).0
          (on_sweeper_run (sweep_expired s (now i) default_max_records).1.removed m)
          j
          t
          n
      → Ran now stops i s m j t n

-- The rounds from round `i` come to an end behind some round `j`, which is within the records of the
-- heap: the store that is returned is the one round `j` leaves, it is in order, and behind that
-- round the server has been asked to stop, or no key that is left had expired at its time.
pub data HasEnded (now : ℕ → ℕ) (stops : ℕ → Bool) (i : ℕ) (s : KvStore) (m : ServerMetrics)
    : Option (KvStore × ServerMetrics) → Type 0 where
  has_ended :
      (j : ℕ) (t : KvStore) (n : ServerMetrics)
      → Ran now stops i s m j t n
      → j ≤ i + length s.expirations
      → IsSound t
      → (stops j ≡ true) ⊎ IsClean t (now j)
      → HasEnded now stops i s m (some (t, n))

module _ (now : ℕ → ℕ) (stops : ℕ → Bool) where
  -- Round `i` and those behind it.
  HasEnded-next :
      (i : ℕ) (s : KvStore) (m : ServerMetrics) (x : Option (KvStore × ServerMetrics))
      → IsSound s
      → (sweep_expired s (now i) default_max_records).1.has_more_expired ≡ true
      → stops i ≡ false
      → HasEnded now stops
          (i + 1)
          (sweep_expired s (now i) default_max_records).0
          (on_sweeper_run (sweep_expired s (now i) default_max_records).1.removed m)
          x
      → HasEnded now stops i s m x
  HasEnded-next i s m _ h more going (has_ended j t n ran few sound end) =
      has_ended j t n (next_round i j s t m n more going ran)
        (omega (
          arith,
          few,
          sweep_expired_shrinks s (now i) default_max_records h.inv h.room (omega arith) more,
        ))
        sound end

  -- Round `i` is the last one.
  HasEnded-last :
      (i : ℕ) (s : KvStore) (m : ServerMetrics)
      → IsSound s
      → (stops i ≡ true)
        ⊎ ((sweep_expired s (now i) default_max_records).1.has_more_expired ≡ false)
      → HasEnded now stops i s m (
          some (
            (sweep_expired s (now i) default_max_records).0,
            on_sweeper_run (sweep_expired s (now i) default_max_records).1.removed m,
          ))
  HasEnded-last i s m h (inl asked) =
      has_ended i _ _ (last_round i s m) (omega arith)
        (sweep-IsSound s (now i) default_max_records h) (inl asked)
  HasEnded-last i s m h (inr done) =
      has_ended i _ _ (last_round i s m) (omega arith)
        (sweep-IsSound s (now i) default_max_records h)
        (inr (λ key entry found.
          sweep_expired_complete s (now i) default_max_records key entry h.inv h.room done found))

  if-HasEnded :
      (more stop : Bool) (i : ℕ) (s : KvStore) (m : ServerMetrics)
      (x y : Option (KvStore × ServerMetrics))
      → (more ≡ true → stop ≡ false → HasEnded now stops i s m x)
      → ((stop ≡ true) ⊎ (more ≡ false) → HasEnded now stops i s m y)
      → HasEnded now stops i s m (if more && not stop then x else y)
  if-HasEnded true false i s m x y a b = a refl refl
  if-HasEnded true true i s m x y a b = b (inl refl)
  if-HasEnded false stop i s m x y a b = b (inr refl)

  -- The rounds of one wake-up of the sweeper, on a store in order with fewer than 2 ^ 64 keys that no
  -- other thread uses meanwhile, come to an end after at most as many rounds as the heap has
  -- records, and one more, with the store and the counters that these rounds leave one behind the
  -- other, each but the last of which leaves more to remove and is not followed by a request to
  -- stop: behind the last of them the server has been asked to stop, or no key that is left had
  -- expired at its time; and the store is in order.
  pub sweep_rounds-HasEnded :
      (fuel i : ℕ) (s : KvStore) (m : ServerMetrics)
      → IsSound s
      → length s.expirations < fuel
      → HasEnded now stops i s m (sweep_rounds fuel now stops i s m)
  unfolding sweep_rounds
  sweep_rounds-HasEnded zero i s m h enough = absurd (omega arith)
  sweep_rounds-HasEnded (suc fuel) i s m h enough =
      let r = sweep_expired s (now i) default_max_records in
      let counted = on_sweeper_run r.1.removed m in
      if-HasEnded r.1.has_more_expired (stops i) i s m _ _
        (λ more going. HasEnded-next i s m _ h more going (
          sweep_rounds-HasEnded fuel (i + 1) r.0 counted
            (sweep-IsSound s (now i) default_max_records h)
            (omega (
              arith,
              enough,
              sweep_expired_shrinks s (now i) default_max_records h.inv h.room (omega arith) more,
            ))))
        (λ last. HasEnded-last i s m h last)

-- The store, where the sweeper has come to an end.
data SoundAll : Option (KvStore × ServerMetrics) → Type 0 where
  sound_all : (s : KvStore) (m : ServerMetrics) → IsSound s → SoundAll (some (s, m))

wait-SoundAll :
    (now : ℕ → ℕ) (stops : ℕ → Bool)
    (next : KvStore × ServerMetrics → Option (KvStore × ServerMetrics)) (i : ℕ) (s : KvStore)
    (m : ServerMetrics) (r : Option (KvStore × ServerMetrics))
    → HasEnded now stops i s m r
    → ((s : KvStore) (m : ServerMetrics) → IsSound s → SoundAll (next (s, m)))
    → SoundAll (and_wait next r)
unfolding and_wait
wait-SoundAll now stops next i s m _ (has_ended j t n ran few h e) k = k t n h

sweeper_loop-SoundAll :
    (wakes : List Wake) (s : KvStore) (m : ServerMetrics)
    → IsSound s
    → SoundAll (sweeper_loop wakes s m)
unfolding sweeper_loop
sweeper_loop-SoundAll [] s m h = sound_all s m h
sweeper_loop-SoundAll (told_to_stop ∷ wakes) s m h = sound_all s m h
sweeper_loop-SoundAll (interval_passed now stops ∷ wakes) s m h =
    wait-SoundAll now stops _ 0 s m _
      (sweep_rounds-HasEnded now stops (suc (length s.expirations)) 0 s m h (omega arith))
      (λ t n k. sweeper_loop-SoundAll wakes t n k)
