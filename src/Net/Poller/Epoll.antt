-- ===== src/Net/Poller/Epoll.antt =====
-- src/net/poll/epoll_poller.cpp. The kernel's set of descriptors is a parameter `K`, and `control` is
-- `epoll_ctl`: it says whether the call is taken.
pub mod Promise
pub mod Kernel
pub mod Capacity
use tinykvcache.Prelude.{
  ℕ, Bool, true, false, ◌||◌, ◌&&◌, ◌==◌, ◌*◌, List, [], map, Option, none, some, ltb, length, min,
  bit_or, if◌then◌else◌,
}
use tinykvcache.Prelude.Map.{Map, find, put, erase}
use tinykvcache.Prelude.Int.{ℤ, int_eq}
use tinykvcache.Net.IoEvent.{
  has_io_event, no_event, read_event, write_event, error_event, hangup_event, join,
}
use tinykvcache.Net.Poller.{
  PollerError, already_registered, unknown_fd, control_failed, create_failed, Answer, done, failed,
  validate_interests, Flags, has_flag, set_if, Call, retry,
}

abbrev pub initial_event_capacity : ℕ
initial_event_capacity = 64

abbrev pub max_event_capacity : ℕ
max_event_capacity = 4096

-- `capacity` is the size of `m_nativeEvents`.
pub record EpollPoller (K : Type 0) : Type 0 where
  pub kernel : K
  pub interests : Map ℤ ℕ
  pub capacity : ℕ

-- The constructor; the kernel's set is `none` where `epoll_create1` fails.
pub create : {K : Type 0} → Option K → Answer (EpollPoller K)
create none = failed create_failed
create (some k) = done (record { kernel = k; interests = []; capacity = initial_event_capacity })

pub data Control : Type 0 where
  control_add control_modify : ℕ → Control
  control_delete : Control

pub to_native_events : Flags → ℕ → ℕ
to_native_events flags interests =
    bit_or
      (set_if (has_io_event interests write_event) flags.out_flag
        (set_if (has_io_event interests read_event) flags.in_flag 0))
      flags.half_close_flag

unfoldable pub from_native_events : Flags → ℕ → ℕ
from_native_events flags native =
    set_if (has_flag native flags.hup_flag || has_flag native flags.half_close_flag) hangup_event (
      set_if (has_flag native flags.err_flag) error_event (
        set_if (has_flag native flags.out_flag) write_event (
          set_if (has_flag native flags.in_flag || has_flag native flags.pri_flag) read_event
            no_event)))

module _ {K : Type 0} (flags : Flags) (control : Control → ℤ → K → K × Bool) where
  -- Registered before `epoll_ctl` is called, and taken back where it fails.
  added : ℤ → EpollPoller K → K × Bool → EpollPoller K × Option PollerError
  added fd p (k, true) = (record p { kernel = k }, none)
  added fd p (k, false) =
      (record p { kernel = k; interests = erase fd p.interests }, some control_failed)

  emplace : ℤ → ℕ → EpollPoller K → Option ℕ → EpollPoller K × Option PollerError
  emplace fd interests p (some old) = (p, some already_registered)
  emplace fd interests p none =
      added fd (record p { interests = put fd interests p.interests })
        (control (control_add (to_native_events flags interests)) fd p.kernel)

  add_valid : ℤ → ℕ → EpollPoller K → Option PollerError → EpollPoller K × Option PollerError
  add_valid fd interests p (some e) = (p, some e)
  add_valid fd interests p none = emplace fd interests p (find fd p.interests)

  unfoldable pub add : ℤ → ℕ → EpollPoller K → EpollPoller K × Option PollerError
  unfolding add_valid emplace added
  add fd interests p = add_valid fd interests p (validate_interests fd interests)

  modified : ℤ → ℕ → EpollPoller K → K × Bool → EpollPoller K × Option PollerError
  modified fd interests p (k, true) =
      (record p { kernel = k; interests = put fd interests p.interests }, none)
  modified fd interests p (k, false) = (record p { kernel = k }, some control_failed)

  replace : ℤ → ℕ → EpollPoller K → Option ℕ → EpollPoller K × Option PollerError
  replace fd interests p none = (p, some unknown_fd)
  replace fd interests p (some old) =
      modified fd interests p
        (control (control_modify (to_native_events flags interests)) fd p.kernel)

  modify_valid : ℤ → ℕ → EpollPoller K → Option PollerError → EpollPoller K × Option PollerError
  modify_valid fd interests p (some e) = (p, some e)
  modify_valid fd interests p none = replace fd interests p (find fd p.interests)

  -- `Modity`.
  unfoldable pub modify : ℤ → ℕ → EpollPoller K → EpollPoller K × Option PollerError
  unfolding modify_valid replace modified
  modify fd interests p = modify_valid fd interests p (validate_interests fd interests)

  removed : ℤ → EpollPoller K → K × Bool → EpollPoller K × Option PollerError
  removed fd p (k, true) = (record p { kernel = k; interests = erase fd p.interests }, none)
  removed fd p (k, false) = (record p { kernel = k }, some control_failed)

  remove_found : ℤ → EpollPoller K → Option ℕ → EpollPoller K × Option PollerError
  remove_found fd p none = (p, none)
  remove_found fd p (some old) = removed fd p (control control_delete fd p.kernel)

  unfoldable pub remove : ℤ → EpollPoller K → EpollPoller K × Option PollerError
  unfolding remove_found removed
  remove fd p = remove_found fd p (find fd p.interests)

  grown : EpollPoller K → ℕ → EpollPoller K
  grown p result =
      if result == p.capacity && ltb p.capacity max_event_capacity
      then record p { capacity = min (p.capacity * 2) max_event_capacity }
      else p

  wait_answered :
      EpollPoller K
      → Option (Answer (List (ℤ × ℕ)))
      → EpollPoller K × Option (Answer (List (ℤ × ℕ)))
  unfolding grown
  wait_answered p none = (p, none)
  wait_answered p (some (failed e)) = (p, some (failed e))
  wait_answered p (some (done events)) = (
    grown p (length events),
    some (done (map (λ (e : ℤ × ℕ). (e.0, from_native_events flags e.1)) events)),
  )

  -- A call returns the descriptors and their events, as many as its result says.
  pub wait :
      List (Call (List (ℤ × ℕ))) → EpollPoller K → EpollPoller K × Option (Answer (List (ℤ × ℕ)))
  unfolding wait_answered
  wait calls p = wait_answered p (retry calls)
