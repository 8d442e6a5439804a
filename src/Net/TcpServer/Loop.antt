-- ===== src/Net/TcpServer/Loop.antt =====
-- The loop of `Run` of src/net/tcp_server.cpp: one round of it, and the steps of the acceptor's
-- thread and of the threads of its reactors, in any order.
pub mod Led
pub mod Reached
use tinykvcache.Prelude.{
  ℕ, Bool, true, false, ◌≡◌, ◌&&◌, List, [], ◌∷◌, Option, none, some, if◌then◌else◌,
}
use tinykvcache.Core.FrameCodec.{Bytes}
use tinykvcache.Core.KvStore.{InnerStats}
use tinykvcache.Net.Connection.{NetworkOptions}
use tinykvcache.Net.SubReactor.{SubReactor, running, stopped, is_running, is_stopped_state}
use tinykvcache.Net.SubReactor.Loop.{Step}
use tinykvcache.Net.TcpServer.{
  TcpServer, Accepted, begin_graceful_shutdown, check_sub_reactor_health, check_shutdown_progress,
  accept_new_clients,
}
use tinykvcache.Observability.ServerMetrics.{ServerMetrics}

-- What a round finds: `stop_event` is `m_stopRequested` or an event of the stop channel, and
-- `listen_ready` an event of the listening socket that says Read; `accepts` is what `accept` gives;
-- `stop_time`, `health_time` and `check_time` are what the clock gives.
pub record Found : Type 0 where
  pub stop_event : Bool
  pub listen_ready : Bool
  pub accepts : List Accepted
  pub stop_time : ℕ
  pub health_time : ℕ
  pub check_time : ℕ

module _ (o : NetworkOptions) (graceful_timeout : ℕ) where
  unfoldable pub accept_ready : Found → TcpServer → Option TcpServer
  accept_ready f s =
      if s.listening && is_running s.state && f.listen_ready
      then accept_new_clients o f.accepts s
      else some s

  unfoldable pub progress : ℕ → Option TcpServer → Option TcpServer
  progress now none = none
  progress now (some s) = some (check_shutdown_progress now s)

  -- `none` is the exception of `AcceptNewClients`.
  unfoldable pub run_round : Found → TcpServer → Option TcpServer
  unfolding accept_ready progress
  run_round f s =
      let t = if f.stop_event then begin_graceful_shutdown graceful_timeout f.stop_time s else s in
      progress f.check_time
        (accept_ready f (check_sub_reactor_health graceful_timeout f.health_time t))

-- The state in which `Run` enters its loop, with the reactors that it has started.
unfoldable pub run_started : List SubReactor → TcpServer
run_started reactors = record {
  state = running;
  listening = true;
  sub_reactors = reactors;
  next_sub_reactor_index = 0;
  shutdown_deadline = 0;
  force_stop_sent = false;
}

module _ (o : NetworkOptions) (build_stats : InnerStats → ServerMetrics → Bytes) where
  -- One of the reactors takes a step.
  pub data Moves : List SubReactor → List SubReactor → Type 0 where
    first :
        {r t : SubReactor} {rs : List SubReactor} → Step o build_stats r t → Moves (r ∷ rs) (t ∷ rs)
    behind : {r : SubReactor} {rs ts : List SubReactor} → Moves rs ts → Moves (r ∷ rs) (r ∷ ts)

  pub data ServerStep (graceful_timeout : ℕ) : TcpServer → TcpServer → Type 0 where
    round :
        {s t : TcpServer} (f : Found)
        → is_stopped_state s.state ≡ false
        → run_round o graceful_timeout f s ≡ some t
        → ServerStep graceful_timeout s t
    reactor_moves :
        {s : TcpServer} {rs : List SubReactor}
        → Moves s.sub_reactors rs
        → ServerStep graceful_timeout s (record s { sub_reactors = rs })

  pub data ServerReach (graceful_timeout : ℕ) (s : TcpServer) : TcpServer → Type 0 where
    at_start : ServerReach graceful_timeout s s
    later_on :
        {t u : TcpServer}
        → ServerReach graceful_timeout s t
        → ServerStep graceful_timeout t u
        → ServerReach graceful_timeout s u
