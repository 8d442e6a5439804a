-- ===== src/Net/Signals/Tests.antt =====
-- Runs of src/net/wakeup/termination_signal_handler.cpp.
use tinykvcache.Prelude.{ℕ, ◌≡◌, refl, true, false}
use tinykvcache.Prelude.Int.{pos, negsuc}
use tinykvcache.Net.Signals.{
  Signals, Taken, Restoring, construct, install_sigint, install_sigterm, threw, already_installed,
}
use tinykvcache.Net.Signals.Restores.{left_by, left_by-construct}

-- Actions are numbers: 1 is the program's handler, and 2 ignores the signal.
abbrev before : Signals ℕ
before = record { notify_fd = negsuc 0; sigint = 7; sigterm = 8; sigpipe = 9 }

abbrev no_sigterm : Taken
no_sigterm = record {
  masks = true;
  takes_sigint = true;
  takes_sigterm = false;
  takes_sigpipe = true;
}

abbrev restoring : Restoring
restoring = record { restores_sigint = true; restores_sigterm = true; restores_sigpipe = true }

left_by-construct_example :
    left_by restoring (construct 1 2 no_sigterm restoring (pos 5) before) ≡ before
left_by-construct_example =
    left_by-construct 1 2 no_sigterm restoring (pos 5) before refl refl
      (record { sigint_restored = refl; sigterm_restored = refl; sigpipe_restored = refl })

-- Where the old action for SIGINT is refused, the handler stays installed.
sigint_refused :
    left_by
      (record restoring { restores_sigint = false })
      (construct 1 2 no_sigterm (record restoring { restores_sigint = false }) (pos 5) before)
    ≡ record before { sigint = 1 }
unfolding construct install_sigint install_sigterm
sigint_refused = refl

second_handler :
    construct 1 2 no_sigterm restoring (pos 5) (record before { notify_fd = pos 4 })
    ≡ (record before { notify_fd = pos 4 }, threw already_installed)
unfolding construct
second_handler = refl
