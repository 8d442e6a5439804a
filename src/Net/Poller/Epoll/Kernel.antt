-- ===== src/Net/Poller/Epoll/Kernel.antt =====
-- src/net/poll/epoll_poller.cpp and the set of descriptors that the kernel keeps for it.
use tinykvcache.Prelude.{ℕ, ◌≡◌, Bool, true, false, Option, none, some, if◌then◌else◌, arith}
use tinykvcache.Prelude.Map.{find, put, find-put, find-erase}
use tinykvcache.Prelude.Int.{ℤ, int_beq, int_beq_iff, int_eq}
use tinykvcache.Net.Poller.{Flags}
use tinykvcache.Net.Poller.Command.{Command, add_fd, modify_fd, remove_fd}
use tinykvcache.Net.Poller.Epoll.{
  EpollPoller, Control, control_add, control_modify, control_delete, to_native_events, add,
  add_valid, emplace, added, modify, modify_valid, replace, modified, remove, remove_found, removed,
}
use tinykvcache.Net.Poller.Epoll.Promise.{perform}

-- The events that a call of `epoll_ctl` registers.
abbrev pub events_of : Control → Option ℕ
events_of (control_add events) = some events
events_of (control_modify events) = some events
events_of control_delete = none

-- `epoll_ctl`, as its manual has it: a call that succeeds registers the events of its descriptor, or
-- takes them away, and one that fails changes nothing.
pub record IsEpollCtl {K : Type 0} (control : Control → ℤ → K → K × Bool)
    (registered : K → ℤ → Option ℕ) : Type 0 where
  pub taken :
      (op : Control) (fd : ℤ) (k : K) (j : ℤ)
      → (control op fd k).1 ≡ true
      → registered (control op fd k).0 j ≡ (if int_beq fd j then events_of op else registered k j)
  pub kept :
      (op : Control) (fd : ℤ) (k : K) (j : ℤ)
      → (control op fd k).1 ≡ false
      → registered (control op fd k).0 j ≡ registered k j

abbrev native : Flags → Option ℕ → Option ℕ
native flags none = none
native flags (some interests) = some (to_native_events flags interests)

module _ {K : Type 0} (flags : Flags) (control : Control → ℤ → K → K × Bool)
    (registered : K → ℤ → Option ℕ) where
  -- The kernel has what `m_interests` has.
  pub record InSync (p : EpollPoller K) : Type 0 where
    pub synced : (j : ℤ) → registered p.kernel j ≡ native flags (find j p.interests)

  perform_synced :
      (c : Command) (p : EpollPoller K)
      → IsEpollCtl control registered
      → ((j : ℤ) → registered p.kernel j ≡ native flags (find j p.interests))
      → (j : ℤ)
      → registered (perform flags control c p).0.kernel j
        ≡ native flags (find j (perform flags control c p).0.interests)
  unfolding add add_valid emplace added modify modify_valid replace modified remove remove_found
      removed
  perform_synced (add_fd fd i) p h k j =
      let op = control_add (to_native_events flags i) in
      ground (
        arith,
        k j,
        h.taken op fd p.kernel j,
        h.kept op fd p.kernel j,
        find-put fd j i p.interests,
        find-erase fd j (put fd i p.interests),
        int_beq_iff fd j,
      )
  perform_synced (modify_fd fd i) p h k j =
      let op = control_modify (to_native_events flags i) in
      ground
        (arith, k j, h.taken op fd p.kernel j, h.kept op fd p.kernel j, find-put fd j i p.interests)
  perform_synced (remove_fd fd) p h k j = ground (
    arith,
    k j,
    h.taken control_delete fd p.kernel j,
    h.kept control_delete fd p.kernel j,
    find-erase fd j p.interests,
  )

  -- Every call of the poller, whether it throws or not, leaves the kernel with the events of
  -- `m_interests`, given that `epoll_ctl` is as documented.
  pub perform-InSync :
      (c : Command) (p : EpollPoller K)
      → IsEpollCtl control registered
      → InSync p
      → InSync (perform flags control c p).0
  perform-InSync c p h k = record { synced = λ j. perform_synced c p h k.synced j }
