-- ===== src/Core/KvStore/Sweep/Rebuilt.antt =====
-- The heap that is rebuilt in src/core/kv_store.cpp.
use tinykvcache.Prelude.{
  ℕ, ◌^◌, ◌≤◌, ◌<◌, ◌≡◌, ◌≢◌, ap, ◌∙◌, inl, inr, List, [], ◌∷◌, Option, none, some, ◌==◌, length,
  arith, Bool-cases, subst,
}
use tinykvcache.Prelude.Equality.{bytes_beq, bytes_eq, bytes_beq_iff}
use tinykvcache.Prelude.Map.{Map, find, count}
use tinykvcache.Core.FrameCodec.{Bytes}
use tinykvcache.Core.KvStore.{KvStore, Entry, ExpirationRecord, ExpirationQueue, push, is_expiring}
use tinykvcache.Core.KvStore.Sweep.{rebuild, live_records, make_heap, record_of}
use tinykvcache.Core.KvStore.Heap.{Has, Sorted, Tracked, Has-push, Has-push_self, push-Sorted}
use tinykvcache.Core.KvStore.Invariant.{Counts}
use tinykvcache.Core.KvStore.Tracking.{Inv}

pub with_heap-Counts :
    (s : KvStore) (h : ExpirationQueue) → Counts s → Counts (record s { expirations = h })
with_heap-Counts s h c = record {
  distinct = c.distinct;
  persistent = c.persistent;
  expiring = c.expiring;
}

make_heap-Sorted : (rs : List ExpirationRecord) → Sorted (make_heap rs)
unfolding make_heap
make_heap-Sorted [] = tt
make_heap-Sorted (r ∷ rs) = push-Sorted r (make_heap rs) (make_heap-Sorted rs)

Has-make_heap :
    (x : ExpirationRecord) (rs : List ExpirationRecord) → Has x rs → Has x (make_heap rs)
unfolding make_heap
Has-make_heap x [] h = h
Has-make_heap x (r ∷ rs) (inl e) =
    subst (λ (y : ExpirationRecord). Has y (push r (make_heap rs))) e
      (Has-push_self r (make_heap rs))
Has-make_heap x (r ∷ rs) (inr h) = Has-push r x (make_heap rs) (Has-make_heap x rs h)

Has-record_of :
    (x : ExpirationRecord) (k : Bytes) (v : Entry) (d : Option ℕ) (rest : ExpirationQueue)
    → Has x rest
    → Has x (record_of k v d rest)
Has-record_of x k v none rest h = h
Has-record_of x k v (some t) rest h = inr h

record_of-Has :
    (k : Bytes) (v : Entry) (d : Option ℕ) (t : ℕ) (rest : ExpirationQueue)
    → d ≡ some t
    → Has (record { expire_at = t; key = k; generation = v.generation }) (record_of k v d rest)
record_of-Has k v none t rest e = absurd (cc e)
record_of-Has k v (some u) t rest e = inl (ground arith)

live_records-Tracked : (m : Map Bytes Entry) → Tracked m (live_records m)
unfolding live_records find
live_records-Tracked [] k e t f x = cc
live_records-Tracked ((j, v) ∷ m) k e t f x = elim (Bool-cases (bytes_beq j k)) [
  | inl same ↦
      let key : j ≡ k = (bytes_beq_iff j k).0 same in
      let entry : v ≡ e = ground arith in
      subst
        (λ (i : Bytes).
          Has (record { expire_at = t; key = i; generation = e.generation })
            (record_of j v v.expire_at (live_records m)))
        key
        (subst
          (λ (g : ℕ).
            Has (record { expire_at = t; key = j; generation = g })
              (record_of j v v.expire_at (live_records m)))
          (ap (λ (d : Entry). d.generation) entry)
          (record_of-Has j v v.expire_at t (live_records m)
            (ap (λ (d : Entry). d.expire_at) entry ∙ x)))
  | inr other ↦
      Has-record_of _ j v v.expire_at (live_records m)
        (live_records-Tracked m k e t (ground arith) x)
]

pub count_le : (m : Map Bytes Entry) → count is_expiring m ≤ length m
unfolding count
count_le [] = omega arith
count_le ((k, v) ∷ m) = ground (arith, count_le m)

none_expiring :
    (m : Map Bytes Entry) (k : Bytes) (e : Entry) (t : ℕ)
    → count is_expiring m ≡ 0
    → find k m ≡ some e
    → e.expire_at ≢ some t
unfolding count find
none_expiring [] k e t h f x = cc
none_expiring ((j, v) ∷ m) k e t h f x = elim (Bool-cases (bytes_beq j k)) [
  | inl same ↦
      let entry : v ≡ e = ground arith in ground (arith, ap (λ (d : Entry). d.expire_at) entry)
  | inr other ↦ none_expiring m k e t (ground arith) (ground arith) x
]

-- Of a store in order with fewer than 2 ^ 64 keys: the store with a rebuilt heap is in order, so
-- that the heap has a record for each key with a deadline.
pub rebuild-Inv : (s : KvStore) → Inv s → length s.entries < 2 ^ 64 → Inv (rebuild s)
unfolding rebuild
rebuild-Inv s i room = elim (Bool-cases (s.expiring_keys == 0)) [
  | inl nothing ↦
      let empty : count is_expiring s.entries ≡ 0 =
        ground (arith, count_le s.entries, i.counts.expiring) in
      rw nothing (record {
        counts = with_heap-Counts s [] i.counts;
        sorted = tt;
        tracked = λ k e t f x. none_expiring s.entries k e t empty f x;
      })
  | inr something ↦ rw something (record {
    counts = with_heap-Counts s (make_heap (live_records s.entries)) i.counts;
    sorted = make_heap-Sorted (live_records s.entries);
    tracked = λ k e t f x.
        Has-make_heap _ (live_records s.entries) (live_records-Tracked s.entries k e t f x);
  })
]
