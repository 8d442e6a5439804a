-- ===== src/Net/Poller.antt =====
-- src/net/poll/poller_common.cpp, what src/net/poll/poll_poller.cpp and epoll_poller.cpp share, and
-- src/net/poll/poller_factory.cpp. The flags of <poll.h> and <sys/epoll.h> and the answers of the
-- system calls are parameters.
mod Tests
pub mod Command
pub mod Poll
pub mod Epoll
pub mod Agree
pub mod Events
use tinykvcache.Prelude.{
  ℕ, Bool, true, false, not, ◌&&◌, ◌||◌, ◌==◌, List, [], ◌∷◌, Option, none, some, leb,
  if◌then◌else◌, bit_and, bit_or,
}
use tinykvcache.Prelude.Int.{ℤ, pos, negsuc, int_max}
use tinykvcache.Config.{PollerBackend, auto, poll, epoll}
use tinykvcache.Net.IoEvent.{
  has_io_event, no_event, read_event, write_event, error_event, hangup_event, join,
}

-- The exceptions.
pub data PollerError : Type 0 where
  negative_fd no_interest already_registered unknown_fd : PollerError
  too_many_descriptors wait_failed control_failed create_failed epoll_unavailable : PollerError

-- What a call that may throw gives.
pub data Answer (A : Type 0) : Type 0 where
  done : A → Answer A
  failed : PollerError → Answer A

pub validate_interests : ℤ → ℕ → Option PollerError
validate_interests (negsuc n) interests = some negative_fd
validate_interests (pos n) interests =
    if has_io_event interests read_event || has_io_event interests write_event
    then none
    else some no_interest

-- Milliseconds for `poll` and `epoll_wait`.
unfoldable pub to_timeout_milliseconds : ℤ → ℤ
to_timeout_milliseconds (negsuc n) = negsuc 0
to_timeout_milliseconds (pos n) = if leb n int_max then pos n else pos int_max

-- The flags of <poll.h> or of <sys/epoll.h>; `invalid_flag` is `POLLNVAL`, and `half_close_flag` is
-- `EPOLLRDHUP`.
pub record Flags : Type 0 where
  pub in_flag : ℕ
  pub pri_flag : ℕ
  pub out_flag : ℕ
  pub err_flag : ℕ
  pub hup_flag : ℕ
  pub invalid_flag : ℕ
  pub half_close_flag : ℕ

abbrev pub has_flag : ℕ → ℕ → Bool
has_flag events flag = not (bit_and events flag == 0)

-- `flag` in `result`, where the test holds.
abbrev pub set_if : Bool → ℕ → ℕ → ℕ
set_if test flag result = if test then bit_or result flag else result

-- The loop around `poll` and `epoll_wait`: what each call gives, up to the first that no signal
-- interrupts; `none` while all of them have been interrupted.
pub data Call (A : Type 0) : Type 0 where
  interrupted refused : Call A
  returned : A → Call A

unfoldable pub retry : {A : Type 0} → List (Call A) → Option (Answer A)
retry [] = none
retry (interrupted ∷ calls) = retry calls
retry (refused ∷ calls) = some (failed wait_failed)
retry (returned a ∷ calls) = some (done a)

-- The class that `CreatePoller` makes.
pub data Kind : Type 0 where
  poll_poller epoll_poller : Kind

pub create_poller : Bool → PollerBackend → Answer Kind
create_poller linux auto = done (if linux then epoll_poller else poll_poller)
create_poller linux poll = done poll_poller
create_poller linux epoll = if linux then done epoll_poller else failed epoll_unavailable
