-- ===== src/Net/ScopedFd/Owned.antt =====
-- Who owns a descriptor: src/net/scoped_fd.cpp.
use tinykvcache.Prelude.{
  ℕ, zero, suc, ◌+◌, ◌≤◌, ◌<◌, ◌≡◌, refl, Bool, true, false, ◌==◌, ==_iff, List, [], ◌∷◌, arith,
  if◌then◌else◌, length, inl, inr, Bool-cases,
}
use tinykvcache.Prelude.Int.{ℤ, pos, int_beq, int_beq_iff}
use tinykvcache.Net.ScopedFd.{
  invalid_fd, release_fd, reset_fd, Wrappers, at, put_at, make, make_from, reset_at, release_at,
  move_assign,
}

abbrev pub one_if : Bool → ℕ
one_if true = 1
one_if false = 0

abbrev pub times : ℤ → List ℤ → ℕ
times fd [] = 0
times fd (x ∷ xs) = one_if (int_beq x fd) + times fd xs

-- How often a descriptor is owned, has been closed, or has been handed out.
abbrev pub total : ℤ → Wrappers → ℕ
total fd s = times fd s.wrappers + times fd s.closed + times fd s.handed_out

times-put_at :
    (fd v : ℤ) (i : ℕ) (ws : List ℤ)
    → i < length ws
    → times fd (put_at i v ws) + one_if (int_beq (at i ws) fd) ≡ times fd ws + one_if (int_beq v fd)
times-put_at fd v i [] h = absurd (omega arith)
times-put_at fd v zero (w ∷ ws) h = omega arith
times-put_at fd v (suc i) (w ∷ ws) h = omega (arith, times-put_at fd v i ws (omega arith))

at-put_at : (v : ℤ) (i j : ℕ) (ws : List ℤ) → (i == j) ≡ false → at i (put_at j v ws) ≡ at i ws
at-put_at v i j [] h = refl
at-put_at v zero zero (w ∷ ws) h = absurd (ground arith)
at-put_at v zero (suc j) (w ∷ ws) h = refl
at-put_at v (suc i) zero (w ∷ ws) h = refl
at-put_at v (suc i) (suc j) (w ∷ ws) h =
    at-put_at v i j ws (ground (arith, ==_iff i j, ==_iff (suc i) (suc j)))

length-put_at : (v : ℤ) (i : ℕ) (ws : List ℤ) → length (put_at i v ws) ≡ length ws
length-put_at v i [] = refl
length-put_at v zero (w ∷ ws) = refl
length-put_at v (suc i) (w ∷ ws) = omega (arith, length-put_at v i ws)

total-make :
    (fd : ℤ) (n : ℕ) (s : Wrappers)
    → total (pos n) (make fd s) ≡ total (pos n) s + one_if (int_beq fd (pos n))
unfolding make
total-make fd n s = omega arith

total-make_from :
    (i n : ℕ) (s : Wrappers)
    → i < length s.wrappers
    → total (pos n) (make_from i s) ≡ total (pos n) s
unfolding make_from release_fd
total-make_from i n s h = omega (arith, times-put_at (pos n) invalid_fd i s.wrappers h)

total-release :
    (i n : ℕ) (s : Wrappers)
    → i < length s.wrappers
    → total (pos n) (release_at i s) ≡ total (pos n) s
unfolding release_at release_fd
total-release i n s h = omega (arith, times-put_at (pos n) invalid_fd i s.wrappers h)

-- A descriptor that a wrapper does not own already comes to it, and the one that it owned is closed.
total-reset :
    (i n : ℕ) (new_fd : ℤ) (s : Wrappers)
    → i < length s.wrappers
    → total (pos n) (reset_at i new_fd s)
      ≡ total (pos n) s
        + (if int_beq (at i s.wrappers) new_fd then 0 else one_if (int_beq new_fd (pos n)))
unfolding reset_at reset_fd
total-reset i n new_fd s h = ground (
  arith,
  times-put_at (pos n) new_fd i s.wrappers h,
  times-put_at (pos n) (at i s.wrappers) i s.wrappers h,
  int_beq_iff (at i s.wrappers) (pos n),
)

reset_le :
    (i n : ℕ) (new_fd : ℤ) (s : Wrappers)
    → i < length s.wrappers
    → total (pos n) (reset_at i new_fd s) ≤ total (pos n) s + one_if (int_beq new_fd (pos n))
reset_le i n new_fd s h = let e = total-reset i n new_fd s h in ground arith

move_assign_le :
    (i j n : ℕ) (s : Wrappers)
    → i < length s.wrappers
    → j < length s.wrappers
    → total (pos n) (move_assign i j s) ≤ total (pos n) s
unfolding move_assign release_fd
move_assign_le i j n s h k =
    let t : Wrappers = record s { wrappers = put_at j invalid_fd s.wrappers } in
    let r =
      reset_le i n (at j s.wrappers) t (omega (arith, h, length-put_at invalid_fd j s.wrappers)) in
    let p = times-put_at (pos n) invalid_fd j s.wrappers k in
    elim (Bool-cases (i == j)) [
      | inl same ↦ rw same (omega arith)
      | inr other ↦ rw other (omega (arith, r, p))
    ]

-- What a program does with its wrappers.
pub data Owning : Type 0 where
  makes : ℤ → Owning
  moves_from : ℕ → Owning
  moves_to : ℕ → ℕ → Owning
  resets : ℕ → ℤ → Owning
  releases : ℕ → Owning

abbrev pub own : Owning → Wrappers → Wrappers
own (makes fd) s = make fd s
own (moves_from i) s = make_from i s
own (moves_to i j) s = move_assign i j s
own (resets i fd) s = reset_at i fd s
own (releases i) s = release_at i s

-- The wrappers that it names are there.
abbrev pub IsThere : Owning → Wrappers → Type 0
IsThere (makes fd) s = Unit {0}
IsThere (moves_from i) s = i < length s.wrappers
IsThere (moves_to i j) s = (i < length s.wrappers) × (j < length s.wrappers)
IsThere (resets i fd) s = i < length s.wrappers
IsThere (releases i) s = i < length s.wrappers

abbrev pub own_all : List Owning → Wrappers → Wrappers
own_all [] s = s
own_all (op ∷ ops) s = own_all ops (own op s)

abbrev pub AllThere : List Owning → Wrappers → Type 0
AllThere [] s = Unit {0}
AllThere (op ∷ ops) s = IsThere op s × AllThere ops (own op s)

-- How often the program hands a descriptor to a wrapper.
abbrev taken_over : ℤ → Owning → ℕ
taken_over fd (makes x) = one_if (int_beq x fd)
taken_over fd (resets i x) = one_if (int_beq x fd)
taken_over fd (moves_from i) = 0
taken_over fd (moves_to i j) = 0
taken_over fd (releases i) = 0

abbrev pub all_taken_over : ℤ → List Owning → ℕ
all_taken_over fd [] = 0
all_taken_over fd (op ∷ ops) = taken_over fd op + all_taken_over fd ops

own_le :
    (n : ℕ) (op : Owning) (s : Wrappers)
    → IsThere op s
    → total (pos n) (own op s) ≤ total (pos n) s + taken_over (pos n) op
own_le n (makes fd) s h = omega (arith, total-make fd n s)
own_le n (moves_from i) s h = omega (arith, total-make_from i n s h)
own_le n (moves_to i j) s (h, k) = omega (arith, move_assign_le i j n s h k)
own_le n (resets i fd) s h = reset_le i n fd s h
own_le n (releases i) s h = omega (arith, total-release i n s h)

own_all_le :
    (n : ℕ) (ops : List Owning) (s : Wrappers)
    → AllThere ops s
    → total (pos n) (own_all ops s) ≤ total (pos n) s + all_taken_over (pos n) ops
own_all_le n [] s h = omega arith
own_all_le n (op ∷ ops) s (h, hs) = omega (arith, own_le n op s h, own_all_le n ops (own op s) hs)

abbrev pub no_wrappers : Wrappers
no_wrappers = record { wrappers = []; closed = []; handed_out = [] }

-- From no wrappers on, however wrappers that are there are made, moved, reset and released: the times
-- that a descriptor has been closed, been handed out, and is owned, together, are at most the times
-- that it has been handed to a wrapper. One that is handed over once is closed once at most, and by
-- then neither owned nor handed out.
pub own_all-no_wrappers :
    (n : ℕ) (ops : List Owning)
    → AllThere ops no_wrappers
    → times (pos n) (own_all ops no_wrappers).closed
        + times (pos n) (own_all ops no_wrappers).handed_out
        + times (pos n) (own_all ops no_wrappers).wrappers
      ≤ all_taken_over (pos n) ops
own_all-no_wrappers n ops h = omega (arith, own_all_le n ops no_wrappers h)
