-- ===== src/Net/TcpServer/Loop/Reached.antt =====
-- src/net/tcp_server.cpp: what holds of the acceptor and its reactors in every state that they reach
-- together.
use tinykvcache.Prelude.{
  ℕ, ◌≡◌, subst, Bool, true, false, not, ◌&&◌, List, Option, none, some, inl, inr, Bool-cases,
  arith, if◌then◌else◌,
}
use tinykvcache.Core.FrameCodec.{Bytes}
use tinykvcache.Core.KvStore.{InnerStats}
use tinykvcache.Net.Connection.{NetworkOptions}
use tinykvcache.Net.SubReactor.{SubReactor, is_running}
use tinykvcache.Net.TcpServer.{
  TcpServer, begin_graceful_shutdown, check_sub_reactor_health, accept_new_clients, any_failed,
}
use tinykvcache.Net.TcpServer.Loop.{
  Found, accept_ready, progress, run_round, run_started, round, reactor_moves, ServerReach,
  at_start, later_on,
}
use tinykvcache.Observability.ServerMetrics.{ServerMetrics}
use tinykvcache.Net.TcpServer.Loop.Led.{
  AllLed, ServerInv, begin-ServerInv, Moves-ServerInv, progress-ServerInv, OptionInv,
  accept_loop-OptionInv,
}

module _ (o : NetworkOptions) (build_stats : InnerStats → ServerMetrics → Bytes) where
  if-ServerInv :
      (t : Bool) (x y : TcpServer)
      → ServerInv o x
      → ServerInv o y
      → ServerInv o (if t then x else y)
  if-ServerInv true x y a b = a
  if-ServerInv false x y a b = b

  health-ServerInv :
      (graceful_timeout now : ℕ) (s : TcpServer)
      → ServerInv o s
      → ServerInv o (check_sub_reactor_health graceful_timeout now s)
  unfolding check_sub_reactor_health
  health-ServerInv graceful_timeout now s h = if-ServerInv (not (is_running s.state)) s _ h (
      if-ServerInv (any_failed s.sub_reactors) (begin_graceful_shutdown graceful_timeout now s) s
        (begin-ServerInv o build_stats graceful_timeout now s h) h)

  ready-OptionInv :
      (graceful_timeout : ℕ) (f : Found) (s : TcpServer)
      → ServerInv o s
      → OptionInv o build_stats (accept_ready o graceful_timeout f s)
  unfolding accept_ready accept_new_clients
  ready-OptionInv graceful_timeout f s h =
      elim (Bool-cases (s.listening && is_running s.state && f.listen_ready)) [
        | inl ready ↦ rw ready (
            accept_loop-OptionInv o build_stats o.max_accepts_per_event f.accepts s (ground arith)
              h)
        | inr quiet ↦ rw quiet (unfold OptionInv in h)
      ]

  progress-OptionInv :
      (graceful_timeout now : ℕ) (s : Option TcpServer)
      → OptionInv o build_stats s
      → OptionInv o build_stats (progress o graceful_timeout now s)
  unfolding progress OptionInv
  progress-OptionInv graceful_timeout now none h = tt
  progress-OptionInv graceful_timeout now (some s) h = progress-ServerInv o build_stats now s h

  begin_if-ServerInv :
      (graceful_timeout : ℕ) (asked : Bool) (now : ℕ) (s : TcpServer)
      → ServerInv o s
      → ServerInv o (if asked then begin_graceful_shutdown graceful_timeout now s else s)
  begin_if-ServerInv graceful_timeout true now s h =
      begin-ServerInv o build_stats graceful_timeout now s h
  begin_if-ServerInv graceful_timeout false now s h = h

  round-ServerInv :
      (graceful_timeout : ℕ) (f : Found) (s t : TcpServer)
      → run_round o graceful_timeout f s ≡ some t
      → ServerInv o s
      → ServerInv o t
  unfolding run_round OptionInv
  round-ServerInv graceful_timeout f s t e h = subst (OptionInv o build_stats) e (
      progress-OptionInv graceful_timeout f.check_time _ (
        ready-OptionInv graceful_timeout f _ (
          health-ServerInv graceful_timeout f.health_time _
            (begin_if-ServerInv graceful_timeout f.stop_event f.stop_time s h))))

  started-ServerInv :
      (reactors : List SubReactor) → AllLed o true reactors → ServerInv o (run_started reactors)
  unfolding run_started
  started-ServerInv reactors h = record {
    led = h;
    deaf = λ k. absurd (ground arith);
    ended = λ k. absurd (ground arith);
  }

  -- In every state that the acceptor and its reactors reach together, from reactors in order, by
  -- rounds of the acceptor's loop that do not throw and steps of the reactors, in any order: each
  -- reactor is in order; once the server no longer runs it listens no more and each reactor has been
  -- told to stop; and once it has stopped, each reactor has stopped.
  pub ServerReach-ServerInv :
      (graceful_timeout : ℕ) (reactors : List SubReactor) (s : TcpServer)
      → AllLed o true reactors
      → ServerReach o build_stats graceful_timeout (run_started reactors) s
      → ServerInv o s
  ServerReach-ServerInv graceful_timeout reactors _ h at_start = started-ServerInv reactors h
  ServerReach-ServerInv graceful_timeout reactors s h (later_on {t = t} p (round f goes e)) =
      round-ServerInv graceful_timeout f t s e
        (ServerReach-ServerInv graceful_timeout reactors t h p)
  ServerReach-ServerInv graceful_timeout reactors _ h
        (later_on {t = t} p (reactor_moves {rs = rs} moves)) =
      Moves-ServerInv o build_stats t rs moves
        (ServerReach-ServerInv graceful_timeout reactors t h p)
