-- ===== src/Net/Poller/Tests.antt =====
-- Runs of src/net/poll.
use tinykvcache.Prelude.{
  ℕ, ◌≡◌, refl, Bool, true, false, List, [], ◌∷◌, Option, none, some, if◌then◌else◌, arith,
}
use tinykvcache.Prelude.Map.{Map, find, put, erase, find-put, find-erase}
use tinykvcache.Prelude.Int.{ℤ, pos, negsuc, int_beq, int_eq}
use tinykvcache.Net.Poller.{
  validate_interests, control_failed, Flags, Call, interrupted, returned, retry, done,
  to_timeout_milliseconds,
}
use tinykvcache.Net.IoEvent.{has_io_event}
use tinykvcache.Net.Poller.Command.{Command, add_fd, modify_fd, remove_fd, IsPoller}
use tinykvcache.Net.Poller.Poll.{wait, collect, ready_events, descriptors, from_native_events}
use tinykvcache.Net.Poller.Poll.Promise.{poll_perform, poll_view}
use tinykvcache.Net.Poller.Epoll.{EpollPoller, Control, control_add, control_modify, control_delete}
use tinykvcache.Net.Poller.Epoll as Epoll
use tinykvcache.Net.Poller.Epoll.Promise.{perform, view, accepts, epoll-IsPoller}
use tinykvcache.Net.Poller.Epoll.Kernel.{events_of, IsEpollCtl, InSync, perform-InSync}
use tinykvcache.Net.Poller.Agree.{run, none_refused, run-poll-epoll}
use tinykvcache.Net.Poller.Events.{reported, wait-find}

-- The values of Linux.
abbrev linux_flags : Flags
linux_flags = record {
  in_flag = 1;
  pri_flag = 2;
  out_flag = 4;
  err_flag = 8;
  hup_flag = 16;
  invalid_flag = 32;
  half_close_flag = 8192;
}

abbrev set_events : Option ℕ → ℤ → Map ℤ ℕ → Map ℤ ℕ
set_events none fd k = erase fd k
set_events (some events) fd k = put fd events k

-- A kernel that refuses the calls for one descriptor.
abbrev linux_control : ℤ → Control → ℤ → Map ℤ ℕ → Map ℤ ℕ × Bool
linux_control bad op fd k =
    if int_beq fd bad then (k, false) else (set_events (events_of op) fd k, true)

abbrev registered : Map ℤ ℕ → ℤ → Option ℕ
registered k fd = find fd k

set_events-find :
    (e : Option ℕ) (fd j : ℤ) (k : Map ℤ ℕ)
    → find j (set_events e fd k) ≡ (if int_beq fd j then e else find j k)
set_events-find none fd j k = find-erase fd j k
set_events-find (some v) fd j k = find-put fd j v k

linux_control-IsEpollCtl : (bad : ℤ) → IsEpollCtl (linux_control bad) registered
linux_control-IsEpollCtl bad = record {
  taken = λ op fd k j h. ground (arith, set_events-find (events_of op) fd j k);
  kept = λ op fd k j h. ground arith;
}

abbrev empty : EpollPoller (Map ℤ ℕ)
empty = record { kernel = []; interests = []; capacity = 64 }

abbrev calls : List Command
calls =
    add_fd (pos 3) 1
    ∷ add_fd (pos 3) 2
    ∷ modify_fd (pos 4) 1
    ∷ add_fd (pos 5) 0
    ∷ add_fd (negsuc 0) 1
    ∷ modify_fd (pos 3) 3
    ∷ remove_fd (pos 3)
    ∷ remove_fd (pos 3)
    ∷ add_fd (pos 3) 2
    ∷ []

-- A kernel that adds a descriptor once, and changes and deletes only what it has.
abbrev strict_control : Control → ℤ → Map ℤ ℕ → Map ℤ ℕ × Bool
strict_control (control_add e) fd k = elim (find fd k) [
  | none ↦ (put fd e k, true)
  | some old ↦ (k, false)
]
strict_control (control_modify e) fd k = elim (find fd k) [
  | none ↦ (k, false)
  | some old ↦ (put fd e k, true)
]
strict_control control_delete fd k = elim (find fd k) [
  | none ↦ (k, false)
  | some old ↦ (erase fd k, true)
]

calls_taken : none_refused (run (perform linux_flags strict_control) calls empty).1 ≡ true
unfolding Epoll.add Epoll.modify Epoll.remove find put erase validate_interests has_io_event
calls_taken = refl

run-poll-epoll_example :
    ((run poll_perform calls []).1 ≡ (run (perform linux_flags strict_control) calls empty).1)
    × ((fd : ℤ)
        → poll_view (run poll_perform calls []).0 fd
          ≡ view (run (perform linux_flags strict_control) calls empty).0 fd)
run-poll-epoll_example =
    run-poll-epoll linux_flags strict_control calls [] empty calls_taken (λ fd. refl)

perform-InSync_example :
    InSync linux_flags
      (linux_control (pos 9))
      registered
      (perform linux_flags (linux_control (pos 9)) (add_fd (pos 9) 1) empty).0
unfolding find
perform-InSync_example =
    perform-InSync linux_flags (linux_control (pos 9)) registered (add_fd (pos 9) 1) empty
      (linux_control-IsEpollCtl (pos 9)) (record { synced = λ j. refl })

epoll-IsPoller_example :
    IsPoller
      (perform linux_flags (linux_control (pos 9)))
      view
      (accepts linux_flags (linux_control (pos 9)))
epoll-IsPoller_example = epoll-IsPoller linux_flags (linux_control (pos 9))

refused_add :
    run
      (perform linux_flags (linux_control (pos 9)))
      (add_fd (pos 9) 1 ∷ remove_fd (pos 9) ∷ [])
      empty
    ≡ (empty, some control_failed ∷ none ∷ [])
unfolding Epoll.add Epoll.remove find put erase validate_interests has_io_event
refused_add = refl

-- Two descriptors, one of them readable and hung up.
abbrev two_fds : Map ℤ ℕ
two_fds = (pos 3, 1) ∷ (pos 4, 3) ∷ []

abbrev ready : ℤ → ℕ
ready fd = if int_beq fd (pos 4) then 17 else 0

abbrev poll_calls : List (Call (ℕ × (ℤ → ℕ)))
poll_calls = interrupted ∷ returned (1, ready) ∷ []

wait_two : wait linux_flags 1024 poll_calls two_fds ≡ some (done ((pos 4, 9) ∷ []))
unfolding wait collect retry ready_events descriptors from_native_events
wait_two = refl

wait-find_example :
    (events : List (ℤ × ℕ)) × (wait linux_flags 1024 poll_calls two_fds ≡ some (done events))
    × ((fd : ℤ) → find fd events ≡ reported linux_flags ready fd (find fd two_fds))
unfolding find retry descriptors
wait-find_example =
    wait-find linux_flags 1024 poll_calls 1 ready two_fds refl refl (omega arith) (refl, (refl, tt))

abbrev one_event : List (ℤ × ℕ)
one_event = (pos 3, 1) ∷ []

long_timeout : to_timeout_milliseconds (pos 3000000000) ≡ pos 2147483647
unfolding to_timeout_milliseconds
long_timeout = refl
