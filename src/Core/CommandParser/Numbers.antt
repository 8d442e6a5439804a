-- ===== src/Core/CommandParser/Numbers.antt =====
-- `ParsePositiveInt` of src/core/command_parser.cpp against the decimal notation of numbers.
use tinykvcache.Prelude.{
  ℕ, zero, suc, ◌+◌, ◌-◌, ◌*◌, ◌/◌, ◌%◌, ◌≤◌, ◌<◌, ◌≡◌, ◌↔◌, refl, inl, inr, true, [], ◌∷◌, ◌++◌,
  some, arith, All, ltb, Bool-cases,
}
use tinykvcache.Prelude.Int.{int_max}
use tinykvcache.Prelude.Text.{decimal, to_string}
use tinykvcache.Core.FrameCodec.{Bytes}
use tinykvcache.Core.CommandParser.{is_digit, int_loop, parse_positive_int}

abbrev pub Digits : Bytes → Type 0
Digits = All (λ c. is_digit c ≡ true)

-- The number that digits stand for, behind a number that has been read.
unfoldable pub read_from : ℕ → Bytes → ℕ
read_from r [] = r
read_from r (c ∷ cs) = read_from (r * 10 + (c - 48)) cs

le-read_from : (r : ℕ) (cs : Bytes) → r ≤ read_from r cs
unfolding read_from
le-read_from r [] = omega arith
le-read_from r (c ∷ cs) = omega (arith, le-read_from (r * 10 + (c - 48)) cs)

-- What `ParsePositiveInt` accepts.
pub record IsPositiveInt (text : Bytes) (v : ℕ) : Type 0 where
  pub digits : Digits text
  pub reads : read_from 0 text ≡ v
  pub positive : 1 ≤ v
  pub fits : v ≤ int_max

int_loop_sound :
    (r : ℕ) (cs : Bytes) (v : ℕ)
    → r ≤ int_max
    → int_loop r cs ≡ some v
    → Digits cs × (read_from r cs ≡ v) × (1 ≤ v) × (v ≤ int_max)
unfolding int_loop read_from
int_loop_sound r [] v k h = ground arith
int_loop_sound r (c ∷ cs) v k h = ground (arith, int_loop_sound (r * 10 + (c - 48)) cs v)

int_loop_complete :
    (r : ℕ) (cs : Bytes) (v : ℕ)
    → Digits cs
    → read_from r cs ≡ v
    → 1 ≤ v
    → v ≤ int_max
    → int_loop r cs ≡ some v
unfolding int_loop read_from
int_loop_complete r [] v d e p m = ground arith
int_loop_complete r (c ∷ cs) v d e p m = ground (
  arith,
  int_loop_complete (r * 10 + (c - 48)) cs v d.1 e p m,
  le-read_from (r * 10 + (c - 48)) cs,
)

parse_positive_int_sound :
    (text : Bytes) (v : ℕ) → parse_positive_int text ≡ some v → IsPositiveInt text v
unfolding parse_positive_int
parse_positive_int_sound [] v h = absurd (cc h)
parse_positive_int_sound (c ∷ cs) v h =
    let (d, e, p, m) = int_loop_sound 0 (c ∷ cs) v (omega arith) h in
    record { digits = d; reads = e; positive = p; fits = m }

parse_positive_int_complete :
    (text : Bytes) (v : ℕ) → IsPositiveInt text v → parse_positive_int text ≡ some v
unfolding parse_positive_int
parse_positive_int_complete [] v h = unfold read_from in absurd (omega (arith, h.reads, h.positive))
parse_positive_int_complete (c ∷ cs) v h =
    int_loop_complete 0 (c ∷ cs) v h.digits h.reads h.positive h.fits

-- A text is accepted, with a value, exactly when it is all digits, the value is what they stand for,
-- and it lies in 1 .. `int_max`.
pub parse_positive_int_iff :
    (text : Bytes) (v : ℕ) → (parse_positive_int text ≡ some v) ↔ IsPositiveInt text v
parse_positive_int_iff text v =
    (parse_positive_int_sound text v, parse_positive_int_complete text v)

read_from-append : (r : ℕ) (xs ys : Bytes) → read_from r (xs ++ ys) ≡ read_from (read_from r xs) ys
unfolding read_from
read_from-append r [] ys = refl
read_from-append r (x ∷ xs) ys = read_from-append (r * 10 + (x - 48)) xs ys

Digits-append : (xs ys : Bytes) → Digits xs → Digits ys → Digits (xs ++ ys)
Digits-append [] ys hx hy = hy
Digits-append (x ∷ xs) ys hx hy = (hx.0, Digits-append xs ys hx.1 hy)

digit_of : (d : ℕ) → d < 10 → is_digit (48 + d) ≡ true
unfolding is_digit
digit_of d h = ground arith

pub decimal-Digits : (f n : ℕ) → Digits (decimal f n)
unfolding decimal
decimal-Digits zero n = tt
decimal-Digits (suc f) n = elim (Bool-cases (ltb n 10)) [
  | inl small ↦ rw small (digit_of n (ground arith), tt)
  | inr large ↦ rw large (
      Digits-append (decimal f (n / 10)) ((48 + n % 10) ∷ []) (decimal-Digits f (n / 10))
        (digit_of (n % 10) (omega arith), tt))
]

pub read_from-decimal : (f n : ℕ) → n < f → read_from 0 (decimal f n) ≡ n
unfolding decimal
read_from-decimal zero n h = absurd (omega arith)
read_from-decimal (suc f) n h = elim (Bool-cases (ltb n 10)) [
  | inl small ↦ rw small (unfold read_from in omega arith)
  | inr large ↦
      rw
        (
          large,
          read_from-append 0 (decimal f (n / 10)) ((48 + n % 10) ∷ []),
          read_from-decimal f (n / 10) (ground arith),
        )
        (unfold read_from in omega arith)
]

-- What `std::to_string` prints is read back.
pub parse_positive_int-to_string :
    (n : ℕ) → 1 ≤ n → n ≤ int_max → parse_positive_int (to_string n) ≡ some n
unfolding to_string
parse_positive_int-to_string n p m = parse_positive_int_complete (decimal (suc n) n) n (record {
  digits = decimal-Digits (suc n) n;
  reads = read_from-decimal (suc n) n (omega arith);
  positive = p;
  fits = m;
})

pub digit-bounds : (c : ℕ) → is_digit c ≡ true → (48 ≤ c) × (c ≤ 57)
unfolding is_digit
digit-bounds c h = ground arith

cons_append :
    {w : Bytes} (xs : Bytes) (d : ℕ) → w ≡ xs ++ (d ∷ []) → (c : ℕ) × (cs : Bytes) × (w ≡ c ∷ cs)
cons_append [] d e = (d, [], e)
cons_append (x ∷ xs) d e = (x, xs ++ (d ∷ []), e)

-- A number has a digit.
pub decimal-cons : (n : ℕ) → (c : ℕ) × (cs : Bytes) × (to_string n ≡ c ∷ cs)
unfolding to_string decimal
decimal-cons n = elim (Bool-cases (ltb n 10)) [
  | inl small ↦ (48 + n, [], rw small)
  | inr large ↦ cons_append (decimal n (n / 10)) (48 + n % 10) (rw large)
]
