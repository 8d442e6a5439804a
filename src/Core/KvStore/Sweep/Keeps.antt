-- ===== src/Core/KvStore/Sweep/Keeps.antt =====
-- The invariant of the store across a sweep of src/core/kv_store.cpp.
use tinykvcache.Prelude.{
  ℕ, ◌^◌, ◌≤◌, ◌<◌, ◌≡◌, ◌≢◌, ap, inl, inr, false, ◌&&◌, [], ◌∷◌, none, some, ltb, leb, length,
  arith, Option-cases, Bool-cases,
}
use tinykvcache.Prelude.Equality.{bytes_eq, bytes_beq_iff}
use tinykvcache.Prelude.Map.{Map, find, erase, find-erase, length-erase}
use tinykvcache.Core.FrameCodec.{Bytes}
use tinykvcache.Core.KvStore.{KvStore, Entry, ExpirationRecord, ExpirationQueue}
use tinykvcache.Core.KvStore.Sweep.{
  Sweep, is_current, sweep_record, sweep_loop, sweep_expired_locked, should_rebuild, rebuild,
  sweep_expired,
}
use tinykvcache.Core.KvStore.Heap.{Sorted, Tracked, Tracked-count}
use tinykvcache.Core.KvStore.Invariant.{Counts, erase_entry-Counts}
use tinykvcache.Core.KvStore.Sweep.Rebuilt.{with_heap-Counts, count_le, rebuild-Inv}
use tinykvcache.Core.KvStore.Tracking.{Inv, entries-erase_entry}

abbrev key_of : ExpirationRecord → Bytes
key_of r = r.key

keys_ne_of_erased :
    (k j : Bytes) (e : Entry) (m : Map Bytes Entry)
    → find j (erase k m) ≡ some e
    → (k ≢ j) × (find j m ≡ some e)
keys_ne_of_erased k j e m f =
    (ground (arith, find-erase k j m, bytes_beq_iff k j), ground (arith, find-erase k j m))

-- What a record leaves to track once it has been popped, if its key is not in the map.
popped_absent :
    (m : Map Bytes Entry) (r : ExpirationRecord) (heap : ExpirationQueue)
    → Tracked m (r ∷ heap)
    → find r.key m ≡ none
    → Tracked m heap
popped_absent m r heap tr gone j e t f x = elim (tr j e t f x) [
  | inl same ↦ absurd (cc (ap key_of same))
  | inr h ↦ h
]

popped_stale :
    (m : Map Bytes Entry) (r : ExpirationRecord) (heap : ExpirationQueue) (entry : Entry)
    → Tracked m (r ∷ heap)
    → find r.key m ≡ some entry
    → is_current entry r ≡ false
    → Tracked m heap
popped_stale m r heap entry tr found stale j e t f x = elim (tr j e t f x) [
  | inl same ↦ absurd (ground (arith, ap key_of same))
  | inr h ↦ h
]

popped_current :
    (m : Map Bytes Entry) (r : ExpirationRecord) (heap : ExpirationQueue)
    → Tracked m (r ∷ heap)
    → Tracked (erase r.key m) heap
popped_current m r heap tr j e t f x =
    let (other, kept) = keys_ne_of_erased r.key j e m f in
    elim (tr j e t kept x) [ inl same ↦ absurd (other (ap key_of same)) | inr h ↦ h ]

abbrev Loop : Sweep → ExpirationQueue → Type 0
Loop w heap = Counts w.store × Tracked w.store.entries heap

sweep_record-Loop :
    (w : Sweep) (r : ExpirationRecord) (heap : ExpirationQueue)
    → Loop w (r ∷ heap)
    → Loop (sweep_record w r) heap
unfolding sweep_record
sweep_record-Loop w r heap (c, tr) = elim (Option-cases (find r.key w.store.entries)) [
  | inl gone ↦ rw (gone, sweep_record) (c, popped_absent w.store.entries r heap tr gone)
  | inr (entry, found) ↦ elim (Bool-cases (is_current entry r)) [
    | inl current ↦
        rw (found, sweep_record, current)
          (
            erase_entry-Counts w.store r.key entry c found,
            rw (entries-erase_entry w.store r.key entry) (popped_current w.store.entries r heap tr),
          )
    | inr stale ↦
        rw (found, sweep_record, stale)
          (c, popped_stale w.store.entries r heap entry tr found stale)
  ]
]

pub sweep_loop-Inv :
    (now limit : ℕ) (heap : ExpirationQueue) (w : Sweep)
    → Loop w heap
    → Sorted heap
    → Inv (sweep_loop now limit heap w).store
unfolding sweep_loop
sweep_loop-Inv now limit [] w (c, tr) s = record {
  counts = with_heap-Counts w.store _ c;
  sorted = tt;
  tracked = tr;
}
sweep_loop-Inv now limit (r ∷ heap) w (c, tr) s =
    elim (Bool-cases (ltb w.processed limit && leb r.expire_at now)) [
      | inl on ↦ rw on (
          sweep_loop-Inv now limit heap (sweep_record w r) (sweep_record-Loop w r heap (c, tr)) s.1)
      | inr off ↦
          rw off (record { counts = with_heap-Counts w.store _ c; sorted = s; tracked = tr })
    ]

entries-sweep_record_le :
    (w : Sweep) (r : ExpirationRecord)
    → length (sweep_record w r).store.entries ≤ length w.store.entries
unfolding sweep_record
entries-sweep_record_le w r =
    ground (
      arith,
      length-erase r.key w.store.entries,
      λ (e : Entry). entries-erase_entry w.store r.key e,
    )

pub entries-sweep_loop_le :
    (now limit : ℕ) (heap : ExpirationQueue) (w : Sweep)
    → length (sweep_loop now limit heap w).store.entries ≤ length w.store.entries
unfolding sweep_loop
entries-sweep_loop_le now limit [] w = omega arith
entries-sweep_loop_le now limit (r ∷ heap) w =
    ground
      (arith, entries-sweep_loop_le now limit heap (sweep_record w r), entries-sweep_record_le w r)

pub sweep_expired_locked-Inv :
    (s : KvStore) (now limit : ℕ) → Inv s → Inv (sweep_expired_locked s now limit).0
unfolding sweep_expired_locked
sweep_expired_locked-Inv s now limit i =
    sweep_loop-Inv now limit s.expirations _ (i.counts, i.tracked) i.sorted

pub sweep_expired-Inv :
    (s : KvStore) (now limit : ℕ)
    → Inv s
    → length s.entries < 2 ^ 64
    → Inv (sweep_expired s now limit).0
unfolding sweep_expired
sweep_expired-Inv s now limit i room =
    elim (Bool-cases (should_rebuild (sweep_expired_locked s now limit).0)) [
      | inl again ↦ rw again (
          rebuild-Inv (sweep_expired_locked s now limit).0 (sweep_expired_locked-Inv s now limit i)
            (unfold sweep_expired_locked in
              omega (
                arith,
                entries-sweep_loop_le now limit s.expirations
                    (record { store = s; processed = 0; removed = 0 }),
              )))
      | inr enough ↦ rw enough (sweep_expired_locked-Inv s now limit i)
    ]

pub sweep_le :
    (s : KvStore) (now limit : ℕ) → length (sweep_expired s now limit).0.entries ≤ length s.entries
unfolding sweep_expired sweep_expired_locked rebuild
sweep_le s now limit = ground (
  arith,
  entries-sweep_loop_le now limit s.expirations (record { store = s; processed = 0; removed = 0 }),
)

-- What `ShouldRebuildExpirationHeapLocked` asserts, of a store in order with fewer than 2 ^ 64
-- keys: the heap has at least as many records as keys have a deadline.
pub expiring_le :
    (s : KvStore) → Inv s → length s.entries < 2 ^ 64 → s.expiring_keys ≤ length s.expirations
expiring_le s i room = omega (
  arith,
  i.counts.expiring,
  count_le s.entries,
  Tracked-count s.entries s.expirations i.counts.distinct i.tracked,
)
