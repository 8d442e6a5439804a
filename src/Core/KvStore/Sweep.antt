-- ===== src/Core/KvStore/Sweep.antt =====
-- The active removal of expired keys, and the rebuilding of the heap (src/core/kv_store.cpp).
pub mod Rebuilt
pub mod Keeps
pub mod Visible
pub mod Shrinks
use tinykvcache.Prelude.{
  ℕ, ◌+◌, ◌-◌, ◌%◌, ◌^◌, Bool, true, false, not, ◌&&◌, List, [], ◌∷◌, Option, none, some, ltb, leb,
  ◌==◌, if◌then◌else◌, length,
}
use tinykvcache.Prelude.Equality.{bytes_eq}
use tinykvcache.Prelude.Map.{Map, find}
use tinykvcache.Core.FrameCodec.{Bytes}
use tinykvcache.Core.KvStore.{
  KvStore, Entry, ExpirationRecord, ExpirationQueue, SweepResult, push, erase_entry_locked,
}

abbrev pub default_max_records : ℕ
default_max_records = 1024

abbrev pub min_stale_records_for_rebuild : ℕ
min_stale_records_for_rebuild = 1024

abbrev pub min_heap_records_for_rebuild : ℕ
min_heap_records_for_rebuild = 4096

-- The loop's variables.
pub record Sweep : Type 0 where
  pub store : KvStore
  pub processed : ℕ
  pub removed : ℕ

abbrev deadline_is : Option ℕ → ℕ → Bool
deadline_is none t = false
deadline_is (some d) t = d == t

-- The three tests that let a record remove its key.
abbrev pub is_current : Entry → ExpirationRecord → Bool
is_current entry r = entry.generation == r.generation && deadline_is entry.expire_at r.expire_at

-- The body of the loop for a record that has been popped.
unfoldable pub sweep_record : Sweep → ExpirationRecord → Sweep
unfolding erase_entry_locked
sweep_record w r = elim (find r.key w.store.entries) [
  | none ↦ record w { processed = w.processed + 1 }
  | some entry ↦
      if is_current entry r
      then record {
        store = erase_entry_locked w.store r.key entry;
        processed = w.processed + 1;
        removed = w.removed + 1;
      }
      else record w { processed = w.processed + 1 }
]

-- The loop, over the heap: `pop` takes the head.
unfoldable pub sweep_loop : ℕ → ℕ → ExpirationQueue → Sweep → Sweep
unfolding sweep_record
sweep_loop now limit [] w = record w { store = record w.store { expirations = [] } }
sweep_loop now limit (r ∷ heap) w =
    let rest = sweep_loop now limit heap (sweep_record w r) in
    if ltb w.processed limit && leb r.expire_at now
    then rest
    else record w { store = record w.store { expirations = r ∷ heap } }

unfoldable pub has_more : ExpirationQueue → ℕ → Bool
has_more [] now = false
has_more (r ∷ heap) now = leb r.expire_at now

unfoldable pub sweep_expired_locked : KvStore → ℕ → ℕ → KvStore × SweepResult
unfolding sweep_loop has_more
sweep_expired_locked s now limit =
    let w = sweep_loop now limit s.expirations (record { store = s; processed = 0; removed = 0 }) in
    (
      w.store,
      record {
        processed = w.processed;
        removed = w.removed;
        has_more_expired = has_more w.store.expirations now;
        heap_rebuilt = false;
      },
    )

unfoldable pub should_rebuild : KvStore → Bool
should_rebuild s =
    let heap_size = length s.expirations in
    let stale_records = (heap_size + 2 ^ 64 - s.expiring_keys) % 2 ^ 64 in
    if heap_size == 0
    then false
    else if s.expiring_keys == 0
    then true
    else if ltb heap_size min_heap_records_for_rebuild
    then false
    else (leb min_stale_records_for_rebuild stale_records && leb s.expiring_keys stale_records)

abbrev pub record_of : Bytes → Entry → Option ℕ → ExpirationQueue → ExpirationQueue
record_of key entry none rest = rest
record_of key entry (some t) rest =
    record { expire_at = t; key = key; generation = entry.generation } ∷ rest

-- One record for each key with a deadline, in the order of the map.
unfoldable pub live_records : Map Bytes Entry → ExpirationQueue
live_records [] = []
live_records ((key, entry) ∷ m) = record_of key entry entry.expire_at (live_records m)

-- The constructor of `std::priority_queue` from a vector.
unfoldable pub make_heap : List ExpirationRecord → ExpirationQueue
unfolding push
make_heap [] = []
make_heap (r ∷ rs) = push r (make_heap rs)

unfoldable pub rebuild : KvStore → KvStore
unfolding live_records make_heap
rebuild s =
    if s.expiring_keys == 0
    then record s { expirations = [] }
    else record s { expirations = make_heap (live_records s.entries) }

unfoldable pub sweep_expired : KvStore → ℕ → ℕ → KvStore × SweepResult
unfolding sweep_expired_locked should_rebuild rebuild
sweep_expired s now limit =
    let (t, result) = sweep_expired_locked s now limit in
    let u = rebuild t in
    if should_rebuild t
    then (u, record result { heap_rebuilt = true; has_more_expired = has_more u.expirations now })
    else (t, result)
