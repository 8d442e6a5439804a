-- ===== src/Core/KvStore/Sweep/Shrinks.antt =====
-- The heap across a sweep of src/core/kv_store.cpp that is to be followed by another.
use tinykvcache.Prelude.{
  ℕ, suc, ◌≤◌, ◌<◌, ◌^◌, ◌≡◌, refl, sym, ap, ◌∙◌, inl, inr, true, List, [], ◌∷◌, leb, length, arith,
  Bool-cases,
}
use tinykvcache.Prelude.Equality.{bytes_eq}
use tinykvcache.Prelude.Map.{Map, count}
use tinykvcache.Core.FrameCodec.{Bytes}
use tinykvcache.Core.KvStore.{KvStore, Entry, ExpirationRecord, ExpirationQueue, push, is_expiring}
use tinykvcache.Core.KvStore.Tracking.{Inv}
use tinykvcache.Core.KvStore.Sweep.{
  Sweep, sweep_record, sweep_loop, has_more, sweep_expired_locked, should_rebuild, live_records,
  make_heap, rebuild, sweep_expired,
}
use tinykvcache.Core.KvStore.Sweep.Keeps.{
  expiring_le, sweep_expired_locked-Inv, entries-sweep_loop_le,
}
use tinykvcache.Core.KvStore.Sweep.Rebuilt.{count_le}

length-push : (r : ExpirationRecord) (h : ExpirationQueue) → length (push r h) ≡ suc (length h)
unfolding push
length-push r [] = refl
length-push r (x ∷ h) = ground (arith, length-push r h)

length-make_heap : (rs : List ExpirationRecord) → length (make_heap rs) ≡ length rs
unfolding make_heap
length-make_heap [] = refl
length-make_heap (r ∷ rs) = length-push r (make_heap rs) ∙ ap suc (length-make_heap rs)

length-live_records : (m : Map Bytes Entry) → length (live_records m) ≡ count is_expiring m
unfolding live_records count
length-live_records [] = refl
length-live_records ((k, e) ∷ m) = ground (arith, length-live_records m)

heap-sweep_loop_le :
    (now limit : ℕ) (heap : ExpirationQueue) (w : Sweep)
    → length (sweep_loop now limit heap w).store.expirations ≤ length heap
unfolding sweep_loop
heap-sweep_loop_le now limit [] w = omega arith
heap-sweep_loop_le now limit (r ∷ heap) w =
    ground (arith, heap-sweep_loop_le now limit heap (sweep_record w r))

-- A loop that may take a record, and leaves one that has expired, has taken one.
sweep_loop_shrinks :
    (now limit : ℕ) (heap : ExpirationQueue) (w : Sweep)
    → w.processed < limit
    → has_more (sweep_loop now limit heap w).store.expirations now ≡ true
    → length (sweep_loop now limit heap w).store.expirations < length heap
unfolding sweep_loop has_more
sweep_loop_shrinks now limit [] w h k = absurd (ground arith)
sweep_loop_shrinks now limit (r ∷ heap) w h k =
    let le = heap-sweep_loop_le now limit heap (sweep_record w r) in
    elim (Bool-cases (leb r.expire_at now)) [
      | inl gone ↦ ground (arith, le)
      | inr stays ↦ ground arith
    ]

-- What is in the heap once it has been rebuilt.
rebuild_shrinks :
    (s : KvStore) (now : ℕ)
    → Inv s
    → length s.entries < 2 ^ 64
    → should_rebuild s ≡ true
    → has_more (rebuild s).expirations now ≡ true
    → length (rebuild s).expirations < length s.expirations
unfolding rebuild should_rebuild has_more
rebuild_shrinks s now i room r h = ground (
  arith,
  i.counts.expiring,
  count_le s.entries,
  expiring_le s i room,
  length-make_heap (live_records s.entries),
  length-live_records s.entries,
)

locked_shrinks :
    (s : KvStore) (now limit : ℕ)
    → 0 < limit
    → has_more (sweep_expired_locked s now limit).0.expirations now ≡ true
    → length (sweep_expired_locked s now limit).0.expirations < length s.expirations
unfolding sweep_expired_locked
locked_shrinks s now limit h k =
    sweep_loop_shrinks now limit s.expirations (record { store = s; processed = 0; removed = 0 }) h
      k

locked_le :
    (s : KvStore) (now limit : ℕ)
    → (length (sweep_expired_locked s now limit).0.expirations ≤ length s.expirations)
      × (length (sweep_expired_locked s now limit).0.entries ≤ length s.entries)
unfolding sweep_expired_locked
locked_le s now limit =
    let w : Sweep = record { store = s; processed = 0; removed = 0 } in
    (heap-sweep_loop_le now limit s.expirations w, entries-sweep_loop_le now limit s.expirations w)

locked_more :
    (s : KvStore) (now limit : ℕ)
    → (sweep_expired_locked s now limit).1.has_more_expired
      ≡ has_more (sweep_expired_locked s now limit).0.expirations now
unfolding sweep_expired_locked
locked_more s now limit = refl

-- Of a store in order with fewer than 2 ^ 64 keys: a sweep that may take a record, and reports that
-- more have expired, leaves fewer records.
pub sweep_expired_shrinks :
    (s : KvStore) (now limit : ℕ)
    → Inv s
    → length s.entries < 2 ^ 64
    → 0 < limit
    → (sweep_expired s now limit).1.has_more_expired ≡ true
    → length (sweep_expired s now limit).0.expirations < length s.expirations
unfolding sweep_expired
sweep_expired_shrinks s now limit i room some_records more =
    let t = (sweep_expired_locked s now limit).0 in
    let le = locked_le s now limit in
    elim (Bool-cases (should_rebuild t)) [
      | inl again ↦
          let h : has_more (rebuild t).expirations now ≡ true = simp again at more in
          ground (
            arith,
            again,
            le.0,
            rebuild_shrinks t now (sweep_expired_locked-Inv s now limit i)
                (omega (arith, le.1, room)) again h,
          )
      | inr enough ↦
          let h : (sweep_expired_locked s now limit).1.has_more_expired ≡ true =
            simp enough at more in
          simp enough (locked_shrinks s now limit some_records (sym (locked_more s now limit) ∙ h))
    ]
