-- ===== src/Net/Poller/Epoll/Promise.antt =====
-- src/net/poll/epoll_poller.cpp as a `Poller`.
use tinykvcache.Prelude.{◌≡◌, Bool, Option, arith}
use tinykvcache.Prelude.Map.{find, put, find-put, find-erase}
use tinykvcache.Prelude.Int.{ℤ, int_beq_iff, int_eq}
use tinykvcache.Net.Poller.{PollerError, Flags}
use tinykvcache.Net.Poller.Command.{
  Command, add_fd, modify_fd, remove_fd, View, target, promised_answer, after, IsPoller,
}
use tinykvcache.Net.Poller.Epoll.{
  EpollPoller, Control, control_add, control_modify, control_delete, to_native_events, add,
  add_valid, emplace, added, modify, modify_valid, replace, modified, remove, remove_found, removed,
}

abbrev pub view : {K : Type 0} → EpollPoller K → View
view p fd = find fd p.interests

abbrev pub control_of : Flags → Command → Control
control_of flags (add_fd fd i) = control_add (to_native_events flags i)
control_of flags (modify_fd fd i) = control_modify (to_native_events flags i)
control_of flags (remove_fd fd) = control_delete

module _ {K : Type 0} (flags : Flags) (control : Control → ℤ → K → K × Bool) where
  abbrev pub perform : Command → EpollPoller K → EpollPoller K × Option PollerError
  perform (add_fd fd i) p = add flags control fd i p
  perform (modify_fd fd i) p = modify flags control fd i p
  perform (remove_fd fd) p = remove flags control fd p

  abbrev pub accepts : Command → EpollPoller K → Bool
  accepts c p = (control (control_of flags c) (target c) p.kernel).1

  epoll_answers :
      (c : Command) (p : EpollPoller K) → (perform c p).1 ≡ promised_answer (accepts c p) c (view p)
  unfolding promised_answer add add_valid emplace added modify modify_valid replace modified remove
      remove_found removed
  epoll_answers (add_fd fd i) p = ground arith
  epoll_answers (modify_fd fd i) p = ground arith
  epoll_answers (remove_fd fd) p = ground arith

  epoll_holds :
      (c : Command) (p : EpollPoller K) (fd : ℤ)
      → view (perform c p).0 fd ≡ after (promised_answer (accepts c p) c (view p)) c (view p) fd
  unfolding promised_answer add add_valid emplace added modify modify_valid replace modified remove
      remove_found removed
  epoll_holds (add_fd fd i) p j =
      ground (
        arith,
        find-put fd j i p.interests,
        find-erase fd j (put fd i p.interests),
        int_beq_iff fd j,
      )
  epoll_holds (modify_fd fd i) p j = ground (arith, find-put fd j i p.interests)
  epoll_holds (remove_fd fd) p j = ground (arith, find-erase fd j p.interests, int_beq_iff fd j)

  -- `EpollPoller` keeps the promises of `Poller`, whatever `epoll_ctl` takes or refuses: a call that
  -- throws leaves the registered interests of every descriptor.
  pub epoll-IsPoller : IsPoller perform view accepts
  epoll-IsPoller = record { answers = epoll_answers; holds = epoll_holds }
