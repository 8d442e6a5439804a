-- ===== src/Core/KvStore/Heap.antt =====
-- The heap of deadlines (src/core/kv_store.cpp): its order, and the records it must hold.
use tinykvcache.Prelude.{
  ℕ, suc, ◌≤◌, ◌≡◌, ◌≢◌, refl, ap, sym, ◌∙◌, ◌⊎◌, inl, inr, [], ◌∷◌, none, some, ltb, length, arith,
  All, Option-cases, Bool-cases,
}
use tinykvcache.Prelude.Equality.{bytes_eq, bytes_beq_iff}
use tinykvcache.Prelude.Map.{Map, find, count, Distinct}
use tinykvcache.Core.FrameCodec.{Bytes}
use tinykvcache.Core.KvStore.{Entry, ExpirationRecord, ExpirationQueue, push, is_expiring}

abbrev pub Has : ExpirationRecord → ExpirationQueue → Type 0
Has r [] = ⊥
Has r (x ∷ xs) = (x ≡ r) ⊎ Has r xs

-- The top is the earliest, all the way down.
abbrev pub Sorted : ExpirationQueue → Type 0
Sorted [] = Unit
Sorted (x ∷ xs) = All (λ y. x.expire_at ≤ y.expire_at) xs × Sorted xs

pub Has-push_self : (r : ExpirationRecord) (h : ExpirationQueue) → Has r (push r h)
unfolding push
Has-push_self r [] = inl refl
Has-push_self r (x ∷ xs) = ground (arith, Has-push_self r xs)

pub Has-push : (r x : ExpirationRecord) (h : ExpirationQueue) → Has x h → Has x (push r h)
unfolding push
Has-push r x [] k = absurd k
Has-push r x (y ∷ ys) (inl e) = ground arith
Has-push r x (y ∷ ys) (inr k) = ground (arith, Has-push r x ys k)

All-le-push :
    (t : ℕ) (r : ExpirationRecord) (h : ExpirationQueue)
    → t ≤ r.expire_at
    → All (λ (y : ExpirationRecord). t ≤ y.expire_at) h
    → All (λ (y : ExpirationRecord). t ≤ y.expire_at) (push r h)
unfolding push
All-le-push t r [] k a = (k, tt)
All-le-push t r (x ∷ xs) k a = ground (arith, All-le-push t r xs k a.1)

All-le_trans :
    (s t : ℕ) (h : ExpirationQueue)
    → s ≤ t
    → All (λ (y : ExpirationRecord). t ≤ y.expire_at) h
    → All (λ (y : ExpirationRecord). s ≤ y.expire_at) h
All-le_trans s t [] k a = tt
All-le_trans s t (x ∷ xs) k a = (omega arith, All-le_trans s t xs k a.1)

pub push-Sorted : (r : ExpirationRecord) (h : ExpirationQueue) → Sorted h → Sorted (push r h)
unfolding push
push-Sorted r [] s = (tt, tt)
push-Sorted r (x ∷ xs) s = elim (Bool-cases (ltb r.expire_at x.expire_at)) [
  | inl first ↦
      rw first ((ground arith, All-le_trans r.expire_at x.expire_at xs (ground arith) s.0), s)
  | inr later ↦ rw later (All-le-push x.expire_at r xs (ground arith) s.0, push-Sorted r xs s.1)
]

-- Every key with a deadline has its record.
abbrev pub Tracked : Map Bytes Entry → ExpirationQueue → Type 0
Tracked m h =
    (k : Bytes) (e : Entry) (t : ℕ)
    → find k m ≡ some e
    → e.expire_at ≡ some t
    → Has (record { expire_at = t; key = k; generation = e.generation }) h

-- Taking one record out of a heap.
record Without (r : ExpirationRecord) (h : ExpirationQueue) : Type 0 where
  rest : ExpirationQueue
  shorter : length h ≡ suc (length rest)
  others : (x : ExpirationRecord) → x.key ≢ r.key → Has x h → Has x rest

without : (r : ExpirationRecord) (h : ExpirationQueue) → Has r h → Without r h
without r [] k = absurd k
without r (x ∷ xs) (inl e) = record {
  rest = xs;
  shorter = refl;
  others = λ y n k. elim k [
    | inl f ↦ absurd (n (ap (λ (z : ExpirationRecord). z.key) (sym f ∙ e)))
    | inr k' ↦ k'
  ];
}
without r (x ∷ xs) (inr k) =
    let w = without r xs k in
    record {
      rest = x ∷ w.rest;
      shorter = ap suc w.shorter;
      others = λ y n j. elim j [ inl f ↦ inl f | inr j' ↦ inr (w.others y n j') ];
    }

ne_of_find :
    (k j : Bytes) (e : Entry) (m : Map Bytes Entry) → find k m ≡ none → find j m ≡ some e → j ≢ k
ne_of_find k j e m absent found same = cc

find_tail :
    (k j : Bytes) (v e : Entry) (m : Map Bytes Entry)
    → find k m ≡ none
    → find j m ≡ some e
    → find j ((k, v) ∷ m) ≡ some e
unfolding find
find_tail k j v e m absent found =
    ground (arith, bytes_beq_iff k j, ne_of_find k j e m absent found)

find_head : (k : Bytes) (v : Entry) (m : Map Bytes Entry) → find k ((k, v) ∷ m) ≡ some v
unfolding find
find_head k v m = ground (arith, bytes_beq_iff k k)

-- Different keys have different records, so there are at least as many records as keys.
pub Tracked-count :
    (m : Map Bytes Entry) (h : ExpirationQueue)
    → Distinct m
    → Tracked m h
    → count is_expiring m ≤ length h
unfolding count
Tracked-count [] h d t = omega arith
Tracked-count ((k, v) ∷ m) h d t = elim (Option-cases v.expire_at) [
  | inl never ↦
      let rest : count is_expiring m ≤ length h =
        Tracked-count m h d.1 (λ j e at f x. t j e at (find_tail k j v e m d.0 f) x) in
      ground arith
  | inr (at, due) ↦
      let w = without _ h (t k v at (find_head k v m) due) in
      let rest : count is_expiring m ≤ length w.rest = Tracked-count m w.rest d.1 (λ j e u f x.
        w.others _ (ne_of_find k j e m d.0 f) (t j e u (find_tail k j v e m d.0 f) x)) in
      ground (arith, w.shorter)
]
