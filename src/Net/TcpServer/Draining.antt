-- ===== src/Net/TcpServer/Draining.antt =====
-- src/net/tcp_server.cpp: how a shutdown ends.
use tinykvcache.Prelude.{
  ℕ, ◌≤◌, ◌≡◌, refl, inl, inr, Bool, true, false, List, [], ◌∷◌, arith, Bool-cases, if◌then◌else◌,
  map,
}
use tinykvcache.Net.Connection.{NetworkOptions}
use tinykvcache.Net.SubReactor.{
  ServerState, running, draining, stopped, SubReactor, is_stopped, is_running, is_draining,
}
use tinykvcache.Net.SubReactor as Reactor
use tinykvcache.Net.SubReactor.Shutdown.{
  process_control_requests-force, is_stopped-force_stop, force_stop-requested,
}
use tinykvcache.Net.TcpServer.{TcpServer, all_stopped, force_running, check_shutdown_progress}

-- One reactor wakes up: a stopped one has no thread.
abbrev pub wake : NetworkOptions → (ℕ → Bool) → SubReactor → SubReactor
wake o adds r = if is_stopped r then r else Reactor.process_control_requests o adds r

-- Each reactor wakes up once.
abbrev pub wake_all : NetworkOptions → (ℕ → Bool) → TcpServer → TcpServer
wake_all o adds s = record s { sub_reactors = map (wake o adds) s.sub_reactors }

wake-force_running :
    (o : NetworkOptions) (adds : ℕ → Bool) (r : SubReactor)
    → is_stopped (wake o adds (force_running r)) ≡ true
unfolding force_running
wake-force_running o adds r = elim (Bool-cases (is_stopped r)) [
  | inl s ↦ simp (s, s)
  | inr s ↦
      simp (s, is_stopped-force_stop r)
        ((process_control_requests-force o adds (Reactor.force_stop r) (force_stop-requested r)).0)
]

all_stopped-wake :
    (o : NetworkOptions) (adds : ℕ → Bool) (rs : List SubReactor)
    → all_stopped (map (wake o adds) (map force_running rs)) ≡ true
unfolding all_stopped
all_stopped-wake o adds [] = refl
all_stopped-wake o adds (r ∷ rs) = rw (wake-force_running o adds r, all_stopped-wake o adds rs)

-- Once the deadline of a draining server has passed, and no forced stop has been sent, one check
-- and one control event of each reactor bring the server to its end at the next check.
pub check_shutdown_progress_ends :
    (o : NetworkOptions) (adds : ℕ → Bool) (now later : ℕ) (s : TcpServer)
    → s.state ≡ draining
    → s.force_stop_sent ≡ false
    → s.shutdown_deadline ≤ now
    → (check_shutdown_progress later (wake_all o adds (check_shutdown_progress now s))).state
      ≡ stopped
unfolding check_shutdown_progress
check_shutdown_progress_ends o adds now later s d f past =
    ground (arith, all_stopped-wake o adds s.sub_reactors)
