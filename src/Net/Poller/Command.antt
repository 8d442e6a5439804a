-- ===== src/Net/Poller/Command.antt =====
-- include/tinykv/net/poll/poller.h: what a `Poller` promises, for each of its calls.
use tinykvcache.Prelude.{ℕ, ◌≡◌, Bool, true, false, Option, none, some, if◌then◌else◌}
use tinykvcache.Prelude.Int.{ℤ, int_beq}
use tinykvcache.Net.Poller.{
  PollerError, already_registered, unknown_fd, control_failed, validate_interests,
}

pub data Command : Type 0 where
  add_fd modify_fd : ℤ → ℕ → Command
  remove_fd : ℤ → Command

-- The interests that are registered for a descriptor.
abbrev pub View : Type 0
View = ℤ → Option ℕ

abbrev pub target : Command → ℤ
target (add_fd fd i) = fd
target (modify_fd fd i) = fd
target (remove_fd fd) = fd

abbrev unless_refused : Bool → Option PollerError
unless_refused true = none
unless_refused false = some control_failed

abbrev add_answer : Bool → Option ℕ → Option PollerError → Option PollerError
add_answer accepts old (some e) = some e
add_answer accepts (some i) none = some already_registered
add_answer accepts none none = unless_refused accepts

abbrev modify_answer : Bool → Option ℕ → Option PollerError → Option PollerError
modify_answer accepts old (some e) = some e
modify_answer accepts none none = some unknown_fd
modify_answer accepts (some i) none = unless_refused accepts

abbrev remove_answer : Bool → Option ℕ → Option PollerError
remove_answer accepts none = none
remove_answer accepts (some i) = unless_refused accepts

-- The exception of a call; `accepts` says whether the system takes it.
unfoldable pub promised_answer : Bool → Command → View → Option PollerError
promised_answer accepts (add_fd fd i) v = add_answer accepts (v fd) (validate_interests fd i)
promised_answer accepts (modify_fd fd i) v = modify_answer accepts (v fd) (validate_interests fd i)
promised_answer accepts (remove_fd fd) v = remove_answer accepts (v fd)

abbrev pub desired : Command → Option ℕ
desired (add_fd fd i) = some i
desired (modify_fd fd i) = some i
desired (remove_fd fd) = none

-- A call that throws changes nothing; one that does not throw sets its own descriptor.
abbrev pub after : Option PollerError → Command → View → View
after (some e) c v = v
after none c v = λ fd. if int_beq (target c) fd then desired c else v fd

-- What the clients of a poller rely on.
pub record IsPoller {S : Type 0} (perform : Command → S → S × Option PollerError) (view : S → View)
    (accepts : Command → S → Bool) : Type 0 where
  pub answers : (c : Command) (s : S) → (perform c s).1 ≡ promised_answer (accepts c s) c (view s)
  pub holds :
      (c : Command) (s : S) (fd : ℤ)
      → view (perform c s).0 fd ≡ after (promised_answer (accepts c s) c (view s)) c (view s) fd
