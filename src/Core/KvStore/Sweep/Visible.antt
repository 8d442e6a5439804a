-- ===== src/Core/KvStore/Sweep/Visible.antt =====
-- A sweep (src/core/kv_store.cpp) as a client sees it, and what it leaves in the store.
use tinykvcache.Prelude.{
  ℕ, ◌≤◌, ◌<◌, ◌≡◌, refl, ap, inl, inr, true, false, [], ◌∷◌, some, leb, arith, Option-cases,
  Bool-cases, All, length, ◌^◌,
}
use tinykvcache.Prelude.Equality.{bytes_eq}
use tinykvcache.Prelude.Map.{find}
use tinykvcache.Core.FrameCodec.{Bytes}
use tinykvcache.Core.KvStore.{KvStore, Entry, ExpirationRecord, ExpirationQueue, is_expired}
use tinykvcache.Core.KvStore.Heap.{Has, Sorted}
use tinykvcache.Core.KvStore.Tracking.{Inv}
use tinykvcache.Core.KvStore.View.{view, view-lapsed}
use tinykvcache.Core.KvStore.Sweep.{
  Sweep, is_current, sweep_record, sweep_loop, has_more, sweep_expired_locked, rebuild,
  sweep_expired,
}
use tinykvcache.Core.KvStore.Sweep.Keeps.{sweep_expired-Inv}

current_expired :
    (entry : Entry) (r : ExpirationRecord) (now : ℕ)
    → is_current entry r ≡ true
    → leb r.expire_at now ≡ true
    → is_expired entry now ≡ true
unfolding is_expired
current_expired entry r now c due = ground arith

sweep_record-view :
    (w : Sweep) (r : ExpirationRecord) (now : ℕ) (j : Bytes)
    → leb r.expire_at now ≡ true
    → view (sweep_record w r).store now j ≡ view w.store now j
unfolding sweep_record
sweep_record-view w r now j due = elim (Option-cases (find r.key w.store.entries)) [
  | inl gone ↦ rw (gone, sweep_record)
  | inr (entry, found) ↦ elim (Bool-cases (is_current entry r)) [
    | inl current ↦
        rw (found, sweep_record, current)
          (view-lapsed w.store r.key entry now found (current_expired entry r now current due) j)
    | inr stale ↦ rw (found, sweep_record, stale)
  ]
]

sweep_loop-view :
    (now limit : ℕ) (heap : ExpirationQueue) (w : Sweep) (j : Bytes)
    → view (sweep_loop now limit heap w).store now j ≡ view w.store now j
unfolding sweep_loop view
sweep_loop-view now limit [] w j = refl
sweep_loop-view now limit (r ∷ heap) w j =
    ground (arith, sweep_loop-view now limit heap (sweep_record w r) j, sweep_record-view w r now j)

-- At the time of a sweep, every key looks after it as it did before.
pub view-sweep_expired :
    (s : KvStore) (now limit : ℕ) (j : Bytes)
    → view (sweep_expired s now limit).0 now j ≡ view s now j
unfolding sweep_expired sweep_expired_locked rebuild view
view-sweep_expired s now limit j = ground (
  arith,
  sweep_loop-view now limit s.expirations (record { store = s; processed = 0; removed = 0 }) j,
)

All-later :
    (now t : ℕ) (x : ExpirationRecord) (h : ExpirationQueue)
    → now < t
    → All (λ (y : ExpirationRecord). t ≤ y.expire_at) h
    → Has x h
    → now < x.expire_at
All-later now t x [] k a h = absurd h
All-later now t x (y ∷ ys) k a (inl e) =
    omega (arith, a.0, ap (λ (z : ExpirationRecord). z.expire_at) e)
All-later now t x (y ∷ ys) k a (inr h) = All-later now t x ys k a.1 h

later_of_top :
    (now : ℕ) (x : ExpirationRecord) (h : ExpirationQueue)
    → Sorted h
    → has_more h now ≡ false
    → Has x h
    → now < x.expire_at
unfolding has_more
later_of_top now x [] s m h = absurd h
later_of_top now x (y ∷ ys) s m (inl e) =
    ground (arith, ap (λ (z : ExpirationRecord). z.expire_at) e)
later_of_top now x (y ∷ ys) s m (inr h) = All-later now y.expire_at x ys (ground arith) s.0 h

not_expired :
    (entry : Entry) (now : ℕ)
    → ((t : ℕ) → entry.expire_at ≡ some t → now < t)
    → is_expired entry now ≡ false
unfolding is_expired
not_expired entry now h = elim (Option-cases entry.expire_at) [
  | inl never ↦ rw never
  | inr (t, due) ↦ let k : now < t = h t due in ground arith
]

has_more-sweep :
    (s : KvStore) (now limit : ℕ)
    → (sweep_expired s now limit).1.has_more_expired
      ≡ has_more (sweep_expired s now limit).0.expirations now
unfolding sweep_expired sweep_expired_locked
has_more-sweep s now limit = ground arith

-- Of a store in order with fewer than 2 ^ 64 keys: where a sweep reports that no more has
-- expired, a key that is left in the store has not expired.
pub sweep_expired_complete :
    (s : KvStore) (now limit : ℕ) (key : Bytes) (entry : Entry)
    → Inv s
    → length s.entries < 2 ^ 64
    → (sweep_expired s now limit).1.has_more_expired ≡ false
    → find key (sweep_expired s now limit).0.entries ≡ some entry
    → is_expired entry now ≡ false
sweep_expired_complete s now limit key entry i room finished found =
    let t = sweep_expired-Inv s now limit i room in
    not_expired entry now λ u due.
      later_of_top now _ (sweep_expired s now limit).0.expirations t.sorted
        (rw (← has_more-sweep s now limit) finished) (t.tracked key entry u found due)
