-- ===== src/Net/Poller/Poll.antt =====
-- src/net/poll/poll_poller.cpp.
pub mod Promise
use tinykvcache.Prelude.{
  ℕ, Bool, ◌||◌, ◌==◌, List, [], ◌∷◌, map, Option, none, some, ltb, length, if◌then◌else◌,
}
use tinykvcache.Prelude.Map.{Map, find, put, erase}
use tinykvcache.Prelude.Int.{ℤ, int_eq}
use tinykvcache.Net.IoEvent.{
  has_io_event, no_event, read_event, write_event, error_event, hangup_event, join,
}
use tinykvcache.Net.Poller.{
  PollerError, already_registered, unknown_fd, too_many_descriptors, Answer, done, failed,
  validate_interests, Flags, has_flag, set_if, Call, retry,
}

-- `m_interests`.
abbrev pub Interests : Type 0
Interests = Map ℤ ℕ

emplace : ℤ → ℕ → Interests → Option ℕ → Interests × Option PollerError
emplace fd interests m none = (put fd interests m, none)
emplace fd interests m (some old) = (m, some already_registered)

add_valid : ℤ → ℕ → Interests → Option PollerError → Interests × Option PollerError
add_valid fd interests m (some e) = (m, some e)
add_valid fd interests m none = emplace fd interests m (find fd m)

pub add : ℤ → ℕ → Interests → Interests × Option PollerError
unfolding add_valid emplace
add fd interests m = add_valid fd interests m (validate_interests fd interests)

replace : ℤ → ℕ → Interests → Option ℕ → Interests × Option PollerError
replace fd interests m none = (m, some unknown_fd)
replace fd interests m (some old) = (put fd interests m, none)

modify_valid : ℤ → ℕ → Interests → Option PollerError → Interests × Option PollerError
modify_valid fd interests m (some e) = (m, some e)
modify_valid fd interests m none = replace fd interests m (find fd m)

-- `Modity`.
pub modify : ℤ → ℕ → Interests → Interests × Option PollerError
unfolding modify_valid replace
modify fd interests m = modify_valid fd interests m (validate_interests fd interests)

pub remove : ℤ → Interests → Interests × Option PollerError
remove fd m = (erase fd m, none)

module _ (flags : Flags) where
  pub to_native_events : ℕ → ℕ
  to_native_events interests =
      set_if (has_io_event interests write_event) flags.out_flag
        (set_if (has_io_event interests read_event) flags.in_flag 0)

  unfoldable pub from_native_events : ℕ → ℕ
  from_native_events native = set_if (has_flag native flags.hup_flag) hangup_event (
      set_if (has_flag native flags.err_flag || has_flag native flags.invalid_flag) error_event (
        set_if (has_flag native flags.out_flag) write_event (
          set_if (has_flag native flags.in_flag || has_flag native flags.pri_flag) read_event
            no_event)))

  -- The array that `poll` reads: descriptors and `events`.
  unfoldable pub descriptors : Interests → List (ℤ × ℕ)
  descriptors m = map (λ (e : ℤ × ℕ). (e.0, to_native_events e.1)) m

  -- `revents` is what the call leaves in the array.
  unfoldable pub ready_events : (ℤ → ℕ) → List (ℤ × ℕ) → List (ℤ × ℕ)
  ready_events revents [] = []
  ready_events revents ((fd, events) ∷ rest) =
      let others = ready_events revents rest in
      if revents fd == 0 then others else (fd, from_native_events (revents fd)) ∷ others

  unfoldable pub collect :
      Interests → Option (Answer (ℕ × (ℤ → ℕ))) → Option (Answer (List (ℤ × ℕ)))
  collect m none = none
  collect m (some (failed e)) = some (failed e)
  collect m (some (done (result, revents))) =
      some (done (if result == 0 then [] else ready_events revents (descriptors m)))

  -- `limit` is the largest `nfds_t`; a call returns its result and the `revents`.
  unfoldable pub wait : ℕ → List (Call (ℕ × (ℤ → ℕ))) → Interests → Option (Answer (List (ℤ × ℕ)))
  unfolding collect
  wait limit calls m =
      if ltb limit (length (descriptors m))
      then some (failed too_many_descriptors)
      else collect m (retry calls)
