-- ===== src/Net/Signals/Restores.antt =====
-- What src/net/wakeup/termination_signal_handler.cpp leaves behind.
use tinykvcache.Prelude.{◌≡◌, refl, true, arith}
use tinykvcache.Prelude.Int.{ℤ, pos, negsuc}
use tinykvcache.Net.Signals.{
  Signals, Construction, installed, threw, Taken, Restoring, construct, install_sigint,
  install_sigterm, install_sigpipe, destroy,
}

-- The process as the handler leaves it: at once where the constructor throws, and else when the
-- handler is destroyed.
abbrev pub left_by : {A : Type 0} → Restoring → Signals A × Construction A → Signals A
left_by r (s, installed p) = destroy r p s
left_by r (s, threw e) = s

-- The calls that put an old action back are taken: it is an action that `sigaction` has given for a
-- signal that it takes.
pub record AllRestored (r : Restoring) : Type 0 where
  pub sigint_restored : r.restores_sigint ≡ true
  pub sigterm_restored : r.restores_sigterm ≡ true
  pub sigpipe_restored : r.restores_sigpipe ≡ true

-- Where no handler is installed, the empty masks are made, and the calls of `sigaction` that put an
-- old action back are taken: whichever of the calls of `sigaction` that install an action fails,
-- and if none does, when the handler is destroyed, the process has the actions that it had, and no
-- descriptor to notify.
pub left_by-construct :
    {A : Type 0} (handler ignore : A) (t : Taken) (r : Restoring) (fd : ℤ) (s : Signals A)
    → s.notify_fd ≡ negsuc 0
    → t.masks ≡ true
    → AllRestored r
    → left_by r (construct handler ignore t r fd s) ≡ s
unfolding construct install_sigint install_sigterm install_sigpipe destroy
left_by-construct handler ignore t r (negsuc n) s h m b = refl
left_by-construct handler ignore t r (pos n) s h m b =
    ground (arith, b.sigint_restored, b.sigterm_restored, b.sigpipe_restored)
