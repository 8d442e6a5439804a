-- ===== src/Prelude/Map.antt =====
-- `std::unordered_map`, as the program uses it: an association list with one entry for each key.
use tinykvcache.Prelude.Tests.{if◌then◌else◌}
use tinykvcache.Prelude.Lists.{length}
use tinykvcache.Prelude.Equality.{Eq}
use Prim.Native.Nat.{ℕ, ◌+◌, ◌≤◌}
use mathlib.Core.Path.{◌≡◌, refl}
use mathlib.Core.Bool.{Bool}
use mathlib.Core.Option.{Option, none, some}
use mathlib.Core.List.{List, [], ◌∷◌}
use native.Mathlib.Omega.{arith}

abbrev pub Map {ℓ κ} : Type ℓ → Type κ → Type (ℓ ⊔ κ)
Map K V = List (K × V)

-- How many entries have values that pass a test.
abbrev pub weight {κ} : {V : Type κ} → (V → Bool) → Option V → ℕ
weight p none = 0
weight p (some v) = if p v then 1 else 0

unfoldable pub count {ℓ κ} : {K : Type ℓ} {V : Type κ} → (V → Bool) → Map K V → ℕ
count p [] = 0
count p ((k, v) ∷ m) = weight p (some v) + count p m

module _ {ℓ κ} {K : Type ℓ} {V : Type κ} ⦃e : Eq K⦄ where
  unfoldable pub find : K → Map K V → Option V
  find k [] = none
  find k ((j, v) ∷ m) = if e.beq j k then some v else find k m

  -- `emplace` of a new key, or a write through a reference to the value of an old one.
  unfoldable pub put : K → V → Map K V → Map K V
  put k v [] = (k, v) ∷ []
  put k v ((j, w) ∷ m) = if e.beq j k then (k, v) ∷ m else (j, w) ∷ put k v m

  unfoldable pub erase : K → Map K V → Map K V
  erase k [] = []
  erase k ((j, w) ∷ m) = let rest = erase k m in if e.beq j k then rest else (j, w) ∷ rest

  pub find-put :
      (k j : K) (v : V) (m : Map K V)
      → find j (put k v m) ≡ (if e.beq k j then some v else find j m)
  unfolding find put
  find-put k j v [] = refl
  find-put k j v ((i, w) ∷ m) =
      ground (arith, e.beq_iff k j, e.beq_iff i k, e.beq_iff i j, find-put k j v m)

  pub find-erase :
      (k j : K) (m : Map K V) → find j (erase k m) ≡ (if e.beq k j then none else find j m)
  unfolding find erase
  find-erase k j [] = ground arith
  find-erase k j ((i, w) ∷ m) =
      ground (arith, e.beq_iff k j, e.beq_iff i k, e.beq_iff i j, find-erase k j m)

  -- No key twice.
  abbrev pub Distinct : Map K V → Type κ
  Distinct [] = Unit {κ}
  Distinct ((k, v) ∷ m) = (find k m ≡ none) × Distinct m

  pub put-Distinct : (k : K) (v : V) (m : Map K V) → Distinct m → Distinct (put k v m)
  unfolding put find
  put-Distinct k v [] d = (refl, tt)
  put-Distinct k v ((j, w) ∷ m) d =
      ground (arith, e.beq_iff j k, e.beq_iff k j, find-put k j v m, put-Distinct k v m d.1)

  pub erase-Distinct : (k : K) (m : Map K V) → Distinct m → Distinct (erase k m)
  unfolding erase
  erase-Distinct k [] d = tt
  erase-Distinct k ((j, w) ∷ m) d =
      ground (arith, e.beq_iff j k, e.beq_iff k j, find-erase k j m, erase-Distinct k m d.1)

  erase-absent : (k : K) (m : Map K V) → find k m ≡ none → erase k m ≡ m
  unfolding erase find
  erase-absent k [] h = refl
  erase-absent k ((j, w) ∷ m) h = ground (arith, erase-absent k m)

  pub count-put :
      (p : V → Bool) (k : K) (v : V) (m : Map K V)
      → count p (put k v m) + weight p (find k m) ≡ count p m + weight p (some v)
  unfolding put find count
  count-put p k v [] = omega arith
  count-put p k v ((j, w) ∷ m) = ground (arith, count-put p k v m)

  pub count-erase :
      (p : V → Bool) (k : K) (m : Map K V)
      → Distinct m
      → count p (erase k m) + weight p (find k m) ≡ count p m
  unfolding erase find count
  count-erase p k [] d = refl
  count-erase p k ((j, w) ∷ m) d =
      ground (arith, e.beq_iff j k, count-erase p k m d.1, erase-absent k m)

  pub length-erase : (k : K) (m : Map K V) → length (erase k m) ≤ length m
  unfolding erase
  length-erase k [] = omega arith
  length-erase k ((j, w) ∷ m) = ground (arith, length-erase k m)

  pub length-put_new :
      (k : K) (v : V) (m : Map K V) → find k m ≡ none → length (put k v m) ≡ length m + 1
  unfolding find put
  length-put_new k v [] h = refl
  length-put_new k v ((j, w) ∷ m) h = ground (arith, length-put_new k v m)

  pub length-put : (k : K) (v : V) (m : Map K V) → length (put k v m) ≤ length m + 1
  unfolding put
  length-put k v [] = omega arith
  length-put k v ((j, w) ∷ m) = ground (arith, length-put k v m)
