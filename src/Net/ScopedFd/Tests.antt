-- ===== src/Net/ScopedFd/Tests.antt =====
-- Runs of src/net/scoped_fd.cpp.
use tinykvcache.Prelude.{◌+◌, ◌≤◌, ◌≡◌, refl, List, [], ◌∷◌, arith}
use tinykvcache.Prelude.Int.{pos}
use tinykvcache.Net.ScopedFd.{
  invalid_fd, Wrappers, make, reset_at, move_assign, release_fd, reset_fd,
}
use tinykvcache.Net.ScopedFd.Owned.{
  Owning, makes, moves_to, resets, own_all, all_taken_over, times, no_wrappers, own_all-no_wrappers,
}

-- Descriptor 3 is moved over descriptor 4, and the wrappers are destroyed.
abbrev moved : List Owning
moved =
    makes (pos 3) ∷ makes (pos 4) ∷ moves_to 0 1 ∷ resets 0 invalid_fd ∷ resets 1 invalid_fd ∷ []

abbrev closed_both : Wrappers
closed_both = record {
  wrappers = invalid_fd ∷ invalid_fd ∷ [];
  closed = pos 3 ∷ pos 4 ∷ [];
  handed_out = [];
}

own_all-moved : own_all moved no_wrappers ≡ closed_both
unfolding make reset_at move_assign release_fd reset_fd
own_all-moved = refl

own_all-no_wrappers_example :
    times (pos 3) (own_all moved no_wrappers).closed
      + times (pos 3) (own_all moved no_wrappers).handed_out
      + times (pos 3) (own_all moved no_wrappers).wrappers
    ≤ all_taken_over (pos 3) moved
unfolding make reset_at move_assign release_fd reset_fd
own_all-no_wrappers_example =
    own_all-no_wrappers 3 moved
      (tt, (tt, ((omega arith, omega arith), (omega arith, (omega arith, tt)))))
