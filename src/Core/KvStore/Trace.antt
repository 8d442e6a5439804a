-- ===== src/Core/KvStore/Trace.antt =====
-- The calls that threads make on the store of src/core/kv_store.cpp. The mutex puts them in one
-- order, and `steady_clock` gives each a time.
use tinykvcache.Prelude.{
  ℕ, zero, suc, ◌+◌, ◌^◌, ◌≤◌, ◌<◌, ap, Bool, List, [], ◌∷◌, Option, length, arith,
}
use tinykvcache.Prelude.Equality.{bytes_eq}
use tinykvcache.Prelude.Map.{length-erase, length-put}
use tinykvcache.Prelude.Int.{ℤ, pos, negsuc}
use tinykvcache.Core.FrameCodec.{Bytes}
use tinykvcache.Core.KvStore.{
  KvStore, Entry, init, set, get, del, expire, expire_positive, ttl, erase_entry_locked,
}
use tinykvcache.Core.KvStore.Sweep.{sweep_expired}
use tinykvcache.Core.KvStore.Tracking.{
  Inv, init-Inv, set-Inv, get-Inv, del-Inv, expire-Inv, ttl-Inv, entries-erase_entry,
}
use tinykvcache.Core.KvStore.Sweep.Keeps.{sweep_expired-Inv, sweep_le}

pub data Call : Type 0 where
  sets : Bytes → Bytes → Call
  gets dels ttls : Bytes → Call
  expires : Bytes → ℤ → Call
  sweeps : ℕ → Call

pub data Reply : Type 0 where
  done : Reply
  value : Option Bytes → Reply
  flag : Bool → Reply
  seconds : ℤ → Reply

abbrev pub mapped {ℓ κ} : {A : Type ℓ} {B : Type κ} → (A → B) → KvStore × A → KvStore × B
mapped f (s, a) = (s, f a)

unfoldable pub step : KvStore → ℕ → Call → KvStore × Reply
step s now (sets key v) = (set s key v, done)
step s now (gets key) = mapped value (get s key now)
step s now (dels key) = mapped flag (del s key now)
step s now (ttls key) = mapped seconds (ttl s key now)
step s now (expires key n) = mapped flag (expire s key n now)
step s now (sweeps limit) = ((sweep_expired s now limit).0, done)

unfoldable pub run : KvStore → List (ℕ × Call) → KvStore
run s [] = s
run s ((now, c) ∷ cs) = run (step s now c).0 cs

unfoldable pub replies : KvStore → List (ℕ × Call) → List Reply
unfolding step
replies s [] = []
replies s ((now, c) ∷ cs) = let (t, r) = step s now c in r ∷ replies t cs

-- No call adds more than one key.
erased_le :
    (s : KvStore) (key : Bytes) (entry : Entry)
    → length (erase_entry_locked s key entry).entries ≤ length s.entries
erased_le s key entry =
    omega (arith, length-erase key s.entries, ap length (entries-erase_entry s key entry))

set_le : (s : KvStore) (key v : Bytes) → length (set s key v).entries ≤ length s.entries + 1
unfolding set
set_le s key v = grind (arith, length-put)

expire_positive_le :
    (s : KvStore) (key : Bytes) (n now : ℕ)
    → length (expire_positive s key n now).0.entries ≤ length s.entries + 1
unfolding expire_positive
expire_positive_le s key n now = grind (arith, length-put, length-erase)

step_le :
    (s : KvStore) (now : ℕ) (c : Call) → length (step s now c).0.entries ≤ length s.entries + 1
unfolding step get del ttl expire
step_le s now (sets key v) = set_le s key v
step_le s now (gets key) = grind (arith, erased_le)
step_le s now (dels key) = grind (arith, erased_le)
step_le s now (ttls key) = grind (arith, erased_le)
step_le s now (expires key (pos zero)) = omega arith
step_le s now (expires key (pos (suc n))) = expire_positive_le s key (suc n) now
step_le s now (expires key (negsuc n)) = omega arith
step_le s now (sweeps limit) = omega (arith, sweep_le s now limit)

step-Inv :
    (s : KvStore) (now : ℕ) (c : Call) → length s.entries < 2 ^ 64 → Inv s → Inv (step s now c).0
unfolding step
step-Inv s now (sets key v) room i = set-Inv s key v i
step-Inv s now (gets key) room i = get-Inv s key now i
step-Inv s now (dels key) room i = del-Inv s key now i
step-Inv s now (ttls key) room i = ttl-Inv s key now i
step-Inv s now (expires key n) room i = expire-Inv s key n now i
step-Inv s now (sweeps limit) room i = sweep_expired-Inv s now limit i room

run-Inv_le :
    (s : KvStore) (cs : List (ℕ × Call))
    → length s.entries + length cs < 2 ^ 64
    → Inv s
    → Inv (run s cs)
unfolding run
run-Inv_le s [] room i = i
run-Inv_le s ((now, c) ∷ cs) room i =
    run-Inv_le (step s now c).0 cs (omega (arith, step_le s now c))
      (step-Inv s now c (omega arith) i)

pub length-run :
    (s : KvStore) (cs : List (ℕ × Call)) → length (run s cs).entries ≤ length s.entries + length cs
unfolding run
length-run s [] = omega arith
length-run s ((now, c) ∷ cs) = omega (arith, step_le s now c, length-run (step s now c).0 cs)

-- After any calls, fewer than 2 ^ 64, each key is there once, the counters count the keys with and
-- without a deadline, and the heap is in order and has a record for each key with a deadline.
pub run-Inv : (cs : List (ℕ × Call)) → length cs < 2 ^ 64 → Inv (run init cs)
run-Inv cs room = run-Inv_le init cs (omega arith) init-Inv
