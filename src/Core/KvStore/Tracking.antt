-- ===== src/Core/KvStore/Tracking.antt =====
-- The invariant of the store, `Inv`, and the methods of src/core/kv_store.cpp.
use tinykvcache.Prelude.{
  ℕ, zero, suc, ◌+◌, ◌*◌, ◌≡◌, refl, ap, ◌∙◌, inl, inr, none, some, arith, Option-cases, Bool-cases,
  subst,
}
use tinykvcache.Prelude.Equality.{bytes_beq, bytes_eq, bytes_beq_iff}
use tinykvcache.Prelude.Map.{Map, find, put, erase, count, find-put, find-erase}
use tinykvcache.Prelude.Int.{ℤ, pos, negsuc}
use tinykvcache.Prelude.Words.{inc64}
use tinykvcache.Core.FrameCodec.{Bytes}
use tinykvcache.Core.KvStore.{
  KvStore, Entry, ExpirationRecord, ExpirationQueue, init, push, erase_entry_locked, second,
  set_new, set, set_found, get, del, expire, expire_positive, set_deadline, ttl,
}
use tinykvcache.Core.KvStore.Lookup.{held, absent, lapsed, live}
use tinykvcache.Core.KvStore.Heap.{Has, Sorted, Tracked, Has-push, Has-push_self, push-Sorted}
use tinykvcache.Core.KvStore.Invariant.{
  Counts, erase_entry-Counts, set_new-Counts, set_found-Counts, set_deadline-Counts,
}

pub erase-Tracked :
    (k : Bytes) (m : Map Bytes Entry) (h : ExpirationQueue) → Tracked m h → Tracked (erase k m) h
erase-Tracked k m h t j e at f x = t j e at (ground (arith, find-erase k j m)) x

pub put-Tracked :
    (k : Bytes) (v : Entry) (m : Map Bytes Entry) (h h' : ExpirationQueue)
    → Tracked m h
    → ((x : ExpirationRecord) → Has x h → Has x h')
    → ((t : ℕ)
        → v.expire_at ≡ some t
        → Has (record { expire_at = t; key = k; generation = v.generation }) h')
    → Tracked (put k v m) h'
put-Tracked k v m h h' tr grow new j e t f x = elim (Bool-cases (bytes_beq k j)) [
  | inl same ↦
      let key : k ≡ j = (bytes_beq_iff k j).0 same in
      let entry : v ≡ e = ground (arith, find-put k j v m) in
      subst (λ (i : Bytes). Has (record { expire_at = t; key = i; generation = e.generation }) h')
        key
        (subst (λ (g : ℕ). Has (record { expire_at = t; key = k; generation = g }) h')
          (ap (λ (d : Entry). d.generation) entry)
          (new t (ap (λ (d : Entry). d.expire_at) entry ∙ x)))
  | inr other ↦ grow _ (tr j e t (ground (arith, find-put k j v m)) x)
]

pub record Inv (s : KvStore) : Type 0 where
  pub counts : Counts s
  pub sorted : Sorted s.expirations
  pub tracked : Tracked s.entries s.expirations

pub init-Inv : Inv init
unfolding find count
init-Inv = record {
  counts = record { distinct = tt; persistent = refl; expiring = refl };
  sorted = tt;
  tracked = λ k e t f x. cc;
}

expirations-erase_entry :
    (s : KvStore) (key : Bytes) (entry : Entry)
    → (erase_entry_locked s key entry).expirations ≡ s.expirations
unfolding erase_entry_locked
expirations-erase_entry s key entry = ground arith

pub entries-erase_entry :
    (s : KvStore) (key : Bytes) (entry : Entry)
    → (erase_entry_locked s key entry).entries ≡ erase key s.entries
unfolding erase_entry_locked
entries-erase_entry s key entry = ground arith

pub erase_entry-Inv :
    (s : KvStore) (key : Bytes) (entry : Entry)
    → Inv s
    → find key s.entries ≡ some entry
    → Inv (erase_entry_locked s key entry)
erase_entry-Inv s key entry v found = record {
  counts = erase_entry-Counts s key entry v.counts found;
  sorted = rw (expirations-erase_entry s key entry) v.sorted;
  tracked =
      rw (expirations-erase_entry s key entry, entries-erase_entry s key entry)
        (erase-Tracked key s.entries s.expirations v.tracked);
}

-- A write with no deadline leaves the heap as it is.
plain_write-Inv :
    (s t : KvStore) (key : Bytes) (v : Entry)
    → Inv s
    → Counts t
    → v.expire_at ≡ none
    → t.entries ≡ put key v s.entries
    → t.expirations ≡ s.expirations
    → Inv t
plain_write-Inv s t key v i c never written same = record {
  counts = c;
  sorted = rw same i.sorted;
  tracked =
      rw (same, written)
        (put-Tracked key v s.entries s.expirations s.expirations i.tracked (λ x h. h)
          (λ u due. cc (never, due)));
}

set_new-Inv :
    (s : KvStore) (key value : Bytes)
    → Inv s
    → find key s.entries ≡ none
    → Inv (set_new s key value)
set_new-Inv s key value i fresh =
    plain_write-Inv s (set_new s key value) key
      (record { value = value; expire_at = none; generation = 0 }) i
      (set_new-Counts s key value i.counts fresh) refl (unfold set_new in refl)
      (unfold set_new in refl)

set_found-Inv :
    (s : KvStore) (key value : Bytes) (entry : Entry)
    → Inv s
    → find key s.entries ≡ some entry
    → Inv (set_found s key value entry)
set_found-Inv s key value entry i found =
    plain_write-Inv s (set_found s key value entry) key
      (record { value = value; expire_at = none; generation = inc64 entry.generation }) i
      (set_found-Counts s key value entry i.counts found) refl (unfold set_found in ground arith)
      (unfold set_found in ground arith)

set_deadline-Inv :
    (s : KvStore) (key : Bytes) (entry : Entry) (deadline : ℕ)
    → Inv s
    → find key s.entries ≡ some entry
    → Inv (set_deadline s key entry deadline)
set_deadline-Inv s key entry deadline i found =
    let generation : ℕ = inc64 s.next_expiration_generation in
    let r : ExpirationRecord = record {
      expire_at = deadline;
      key = key;
      generation = generation;
    } in
    let v : Entry = record entry { expire_at = some deadline; generation = generation } in
    let heap : (set_deadline s key entry deadline).expirations ≡ push r s.expirations =
      unfold set_deadline in ground arith in
    let written : (set_deadline s key entry deadline).entries ≡ put key v s.entries =
      unfold set_deadline in ground arith in
    record {
      counts = set_deadline-Counts s key entry deadline i.counts found;
      sorted = rw heap (push-Sorted r s.expirations i.sorted);
      tracked =
          rw (heap, written)
            (put-Tracked key v s.entries s.expirations (push r s.expirations) i.tracked
              (λ x h. Has-push r x s.expirations h)
              (λ u due.
                let same : deadline ≡ u = cc due in
                subst
                  (λ (w : ℕ).
                    Has (record { expire_at = w; key = key; generation = generation })
                      (push r s.expirations))
                  same (Has-push_self r s.expirations)));
    }

pub set-Inv : (s : KvStore) (key value : Bytes) → Inv s → Inv (set s key value)
set-Inv s key value i = elim (Option-cases (find key s.entries)) [
  | inl fresh ↦ unfold set in rw (fresh, set) (set_new-Inv s key value i fresh)
  | inr (entry, found) ↦ unfold set in rw (found, set) (set_found-Inv s key value entry i found)
]

pub get-Inv : (s : KvStore) (key : Bytes) (now : ℕ) → Inv s → Inv (get s key now).0
unfolding get
get-Inv s key now i = elim (held s key now) [
  | absent f ↦ rw (f, get) i
  | lapsed entry f x ↦ rw (f, get, x) (erase_entry-Inv s key entry i f)
  | live entry f x ↦ rw (f, get, x) i
]

pub del-Inv : (s : KvStore) (key : Bytes) (now : ℕ) → Inv s → Inv (del s key now).0
unfolding del
del-Inv s key now i = elim (held s key now) [
  | absent f ↦ rw (f, del) i
  | lapsed entry f x ↦ rw (f, del, x) (erase_entry-Inv s key entry i f)
  | live entry f x ↦ rw (f, del, x) (erase_entry-Inv s key entry i f)
]

pub ttl-Inv : (s : KvStore) (key : Bytes) (now : ℕ) → Inv s → Inv (ttl s key now).0
unfolding ttl
ttl-Inv s key now i = elim (held s key now) [
  | absent f ↦ rw (f, ttl) i
  | lapsed entry f x ↦ rw (f, ttl, x) (erase_entry-Inv s key entry i f)
  | live entry f x ↦ rw (f, ttl, x) i
]

expire_positive-Inv :
    (s : KvStore) (key : Bytes) (n now : ℕ) → Inv s → Inv (expire_positive s key n now).0
unfolding expire_positive
expire_positive-Inv s key n now i = elim (held s key now) [
  | absent f ↦ rw (f, expire_positive) i
  | lapsed entry f x ↦ rw (f, expire_positive, x) (erase_entry-Inv s key entry i f)
  | live entry f x ↦
      rw (f, expire_positive, x) (set_deadline-Inv s key entry (now + n * second) i f)
]

pub expire-Inv :
    (s : KvStore) (key : Bytes) (seconds : ℤ) (now : ℕ) → Inv s → Inv (expire s key seconds now).0
unfolding expire
expire-Inv s key (pos zero) now i = i
expire-Inv s key (pos (suc n)) now i = expire_positive-Inv s key (suc n) now i
expire-Inv s key (negsuc n) now i = i
