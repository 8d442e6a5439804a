-- ===== src/Net/Signals.antt =====
-- src/net/wakeup/termination_signal_handler.cpp. What is installed for a signal, and whether a call of
-- `sigaction` or `sigemptyset` is taken, are parameters.
pub mod Restores
mod Tests
use tinykvcache.Prelude.{ℕ, Bool, true, false, if◌then◌else◌, leb, ltb}
use tinykvcache.Prelude.Int.{ℤ, pos, negsuc}

pub data SignalError : Type 0 where
  notify_fd_not_valid already_installed mask_failed : SignalError
  sigint_failed sigterm_failed sigpipe_failed : SignalError

-- The process: `G_NOTIFY_FD`, and what is installed for each of the three signals.
pub record Signals (A : Type 0) : Type 0 where
  pub notify_fd : ℤ
  pub sigint : A
  pub sigterm : A
  pub sigpipe : A

-- `TerminationSignalHandler`: what was installed before.
pub record Previous (A : Type 0) : Type 0 where
  pub previous_sigint : A
  pub previous_sigterm : A
  pub previous_sigpipe : A

pub data Construction (A : Type 0) : Type 0 where
  installed : Previous A → Construction A
  threw : SignalError → Construction A

-- Which of the calls are taken.
pub record Taken : Type 0 where
  pub masks : Bool
  pub takes_sigint : Bool
  pub takes_sigterm : Bool
  pub takes_sigpipe : Bool

-- Which of the calls that put an old action back are taken; the code ignores their results.
pub record Restoring : Type 0 where
  pub restores_sigint : Bool
  pub restores_sigterm : Bool
  pub restores_sigpipe : Bool

-- What is installed behind a call that puts `previous` back.
abbrev pub put_back : {A : Type 0} → Bool → A → A → A
put_back taken previous now = if taken then previous else now

abbrev is_set : ℤ → Bool
is_set (pos n) = ltb 0 n
is_set (negsuc n) = false

module _ {A : Type 0} (handler ignore : A) (t : Taken) (r : Restoring) where
  install_sigpipe : Previous A → Signals A → Signals A × Construction A
  install_sigpipe p s = if t.takes_sigpipe then (record s { sigpipe = ignore }, installed p) else (
    record s {
      sigint = put_back r.restores_sigint p.previous_sigint s.sigint;
      sigterm = put_back r.restores_sigterm p.previous_sigterm s.sigterm;
      notify_fd = negsuc 0;
    },
    threw sigpipe_failed,
  )

  install_sigterm : Previous A → Signals A → Signals A × Construction A
  unfolding install_sigpipe
  install_sigterm p s =
      if t.takes_sigterm then install_sigpipe p (record s { sigterm = handler }) else (
        record s {
          sigint = put_back r.restores_sigint p.previous_sigint s.sigint;
          notify_fd = negsuc 0;
        },
        threw sigterm_failed,
      )

  install_sigint : Previous A → Signals A → Signals A × Construction A
  unfolding install_sigterm
  install_sigint p s =
      if t.takes_sigint
      then install_sigterm p (record s { sigint = handler })
      else (record s { notify_fd = negsuc 0 }, threw sigint_failed)

  -- The constructor. The exception of `MakeTerminationAction` leaves `G_NOTIFY_FD` set.
  pub construct : ℤ → Signals A → Signals A × Construction A
  unfolding install_sigint
  construct (negsuc n) s = (s, threw notify_fd_not_valid)
  construct (pos n) s =
      let u = record s { notify_fd = pos n } in
      let p : Previous A = record {
        previous_sigint = s.sigint;
        previous_sigterm = s.sigterm;
        previous_sigpipe = s.sigpipe;
      } in
      if is_set s.notify_fd
      then (s, threw already_installed)
      else if t.masks
      then install_sigint p u
      else (u, threw mask_failed)

-- The destructor.
pub destroy : {A : Type 0} → Restoring → Previous A → Signals A → Signals A
destroy r p s = record s {
  sigint = put_back r.restores_sigint p.previous_sigint s.sigint;
  sigterm = put_back r.restores_sigterm p.previous_sigterm s.sigterm;
  sigpipe = put_back r.restores_sigpipe p.previous_sigpipe s.sigpipe;
  notify_fd = negsuc 0;
}
