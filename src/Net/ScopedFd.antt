-- ===== src/Net/ScopedFd.antt =====
-- src/net/scoped_fd.cpp: one wrapper, whose state is `m_fd`, and a set of wrappers that pass
-- descriptors on to each other.
pub mod Owned
mod Tests
use tinykvcache.Prelude.{
  ℕ, zero, suc, Bool, true, false, ◌==◌, List, [], ◌∷◌, Option, none, some, if◌then◌else◌,
}
use tinykvcache.Prelude.Int.{ℤ, pos, negsuc, int_beq}

abbrev pub invalid_fd : ℤ
invalid_fd = negsuc 0

abbrev pub is_valid_fd : ℤ → Bool
is_valid_fd (pos n) = true
is_valid_fd (negsuc n) = false

-- The wrapper behind `Release`, and what it returns.
pub release_fd : ℤ → ℤ × ℤ
release_fd m_fd = (invalid_fd, m_fd)

-- The wrapper behind `Reset`, and the descriptor that is closed, if there is one.
pub reset_fd : ℤ → ℤ → ℤ × Option ℤ
reset_fd new_fd m_fd =
    if int_beq m_fd new_fd
    then (m_fd, none)
    else (new_fd, if is_valid_fd m_fd then some m_fd else none)

-- Wrappers, the descriptors that have been closed, and those that `Release` has handed out.
pub record Wrappers : Type 0 where
  pub wrappers : List ℤ
  pub closed : List ℤ
  pub handed_out : List ℤ

abbrev pub at : ℕ → List ℤ → ℤ
at i [] = invalid_fd
at zero (w ∷ ws) = w
at (suc i) (w ∷ ws) = at i ws

abbrev pub put_at : ℕ → ℤ → List ℤ → List ℤ
put_at i v [] = []
put_at zero v (w ∷ ws) = v ∷ ws
put_at (suc i) v (w ∷ ws) = w ∷ put_at i v ws

abbrev pub log : Option ℤ → List ℤ → List ℤ
log none fds = fds
log (some fd) fds = fd ∷ fds

-- The constructor from a descriptor.
pub make : ℤ → Wrappers → Wrappers
make fd s = record s { wrappers = fd ∷ s.wrappers }

-- The constructor that moves from wrapper `i`.
pub make_from : ℕ → Wrappers → Wrappers
unfolding release_fd
make_from i s =
    let (left, fd) = release_fd (at i s.wrappers) in
    record s { wrappers = fd ∷ put_at i left s.wrappers }

pub reset_at : ℕ → ℤ → Wrappers → Wrappers
unfolding reset_fd
reset_at i new_fd s =
    let (left, gone) = reset_fd new_fd (at i s.wrappers) in
    record s { wrappers = put_at i left s.wrappers; closed = log gone s.closed }

pub release_at : ℕ → Wrappers → Wrappers
unfolding release_fd
release_at i s =
    let (left, fd) = release_fd (at i s.wrappers) in
    record s { wrappers = put_at i left s.wrappers; handed_out = fd ∷ s.handed_out }

-- The assignment that moves from wrapper `j` to wrapper `i`.
pub move_assign : ℕ → ℕ → Wrappers → Wrappers
unfolding release_fd reset_at
move_assign i j s =
    let (left, fd) = release_fd (at j s.wrappers) in
    let t = reset_at i fd (record s { wrappers = put_at j left s.wrappers }) in
    if i == j then s else t
