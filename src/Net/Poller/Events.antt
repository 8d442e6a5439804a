-- ===== src/Net/Poller/Events.antt =====
-- What src/net/poll/poll_poller.cpp and src/net/poll/epoll_poller.cpp report.
use tinykvcache.Prelude.{
  ℕ, ◌≤◌, ◌≡◌, refl, Bool, true, false, ◌||◌, ◌==◌, List, [], ◌∷◌, Option, none, some,
  if◌then◌else◌, arith, ltb, length,
}
use tinykvcache.Prelude.Map.{find, Distinct}
use tinykvcache.Prelude.Int.{ℤ, int_beq_iff, int_eq}
use tinykvcache.Net.IoEvent.{
  has_io_event, no_event, read_event, write_event, error_event, hangup_event,
}
use tinykvcache.Net.Poller.{Flags, has_flag, set_if, Call, retry, done}
use tinykvcache.Net.Poller.Poll.{
  Interests, descriptors, ready_events, collect, from_native_events, wait,
}
use tinykvcache.Net.Poller.Epoll as Epoll

-- The events that a backend should make of flags.
abbrev pub Reports : ℕ → Bool → Bool → Bool → Bool → Type 0
Reports events r w e h =
    (has_io_event events read_event ≡ r)
    × (has_io_event events write_event ≡ w)
    × (has_io_event events error_event ≡ e)
    × (has_io_event events hangup_event ≡ h)

set-Reports :
    (r w e h : Bool)
    → Reports
        (set_if h hangup_event
          (set_if e error_event (set_if w write_event (set_if r read_event no_event))))
        r
        w
        e
        h
unfolding has_io_event
set-Reports true true true true = (refl, refl, refl, refl)
set-Reports true true true false = (refl, refl, refl, refl)
set-Reports true true false true = (refl, refl, refl, refl)
set-Reports true true false false = (refl, refl, refl, refl)
set-Reports true false true true = (refl, refl, refl, refl)
set-Reports true false true false = (refl, refl, refl, refl)
set-Reports true false false true = (refl, refl, refl, refl)
set-Reports true false false false = (refl, refl, refl, refl)
set-Reports false true true true = (refl, refl, refl, refl)
set-Reports false true true false = (refl, refl, refl, refl)
set-Reports false true false true = (refl, refl, refl, refl)
set-Reports false true false false = (refl, refl, refl, refl)
set-Reports false false true true = (refl, refl, refl, refl)
set-Reports false false true false = (refl, refl, refl, refl)
set-Reports false false false true = (refl, refl, refl, refl)
set-Reports false false false false = (refl, refl, refl, refl)

module _ (flags : Flags) where
  -- Each backend reports a read, a write, an error and a hangup just where the flags of its system
  -- call say so: `POLLNVAL` is an error to `PollPoller`, and `EPOLLRDHUP` is a hangup to
  -- `EpollPoller`.
  pub from_native_events-Reports :
      (native : ℕ)
      → Reports
          (from_native_events flags native)
          (has_flag native flags.in_flag || has_flag native flags.pri_flag)
          (has_flag native flags.out_flag)
          (has_flag native flags.err_flag || has_flag native flags.invalid_flag)
          (has_flag native flags.hup_flag)
        × Reports
            (Epoll.from_native_events flags native)
            (has_flag native flags.in_flag || has_flag native flags.pri_flag)
            (has_flag native flags.out_flag)
            (has_flag native flags.err_flag)
            (has_flag native flags.hup_flag || has_flag native flags.half_close_flag)
  unfolding from_native_events Epoll.from_native_events
  from_native_events-Reports native = (set-Reports _ _ _ _, set-Reports _ _ _ _)

  abbrev pub reported : (ℤ → ℕ) → ℤ → Option ℕ → Option ℕ
  reported revents fd none = none
  reported revents fd (some interests) =
      if revents fd == 0 then none else some (from_native_events flags (revents fd))

  find-ready_events :
      (revents : ℤ → ℕ) (m : Interests) (fd : ℤ)
      → Distinct m
      → find fd (ready_events flags revents (descriptors flags m)) ≡ reported revents fd (find fd m)
  unfolding ready_events descriptors find
  find-ready_events revents [] fd d = refl
  find-ready_events revents ((j, i) ∷ m) fd (d, ds) =
      ground (arith, find-ready_events revents m fd ds, int_beq_iff j fd)

  -- A wait of `PollPoller` that `poll` ends with a result other than 0 reports just the descriptors that
  -- are registered and whose `revents` are not 0, each with its own events.
  pub wait-find :
      (limit : ℕ) (calls : List (Call (ℕ × (ℤ → ℕ)))) (result : ℕ) (revents : ℤ → ℕ) (m : Interests)
      → retry calls ≡ some (done (result, revents))
      → (result == 0) ≡ false
      → length (descriptors flags m) ≤ limit
      → Distinct m
      → (events : List (ℤ × ℕ)) × (wait flags limit calls m ≡ some (done events))
        × ((fd : ℤ) → find fd events ≡ reported revents fd (find fd m))
  unfolding wait collect
  wait-find limit calls result revents m e some_ready h d =
      let room : ltb limit (length (descriptors flags m)) ≡ false = ground arith in
      (
        ready_events flags revents (descriptors flags m),
        rw (room, e, some_ready),
        λ fd. find-ready_events revents m fd d,
      )
