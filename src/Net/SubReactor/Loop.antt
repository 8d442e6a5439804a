-- ===== src/Net/SubReactor/Loop.antt =====
-- `EventLoop` of src/net/sub_reactor.cpp: one round of it, and the steps that the reactor's thread and
-- the threads that call it take, in any order that the loop allows.
pub mod Clients
pub mod Operations
pub mod Requests
pub mod Reached
pub mod Rounds
pub mod Settled
pub mod Onward
pub mod Total
mod Tests
use tinykvcache.Prelude.{
  ℕ, Bool, true, false, not, ◌≡◌, List, [], ◌∷◌, Option, none, some, if◌then◌else◌,
}
use tinykvcache.Prelude.Equality.{nat_eq}
use tinykvcache.Prelude.Map.{find, put}
use tinykvcache.Net.Connection.{NetworkOptions, Connection, Session, modify_refused}
use tinykvcache.Net.ClientEvents.{Tick, Recv, Send, handle_ready}
use tinykvcache.Net.SubReactor.{
  SubReactor, is_running, is_stopped_state, enque_client, stop, force_stop,
  process_control_requests, control_throws, cleanup_closed_connections, check_shutdown_progress,
  fail, start,
}
use tinykvcache.Core.KvStore.{InnerStats, KvStore}
use tinykvcache.Core.FrameCodec.{Bytes}
use tinykvcache.Observability.ServerMetrics.{ServerMetrics}

-- A ready event of a client, what `recv`, `send` and the clock give while it is handled, and whether
-- the poller takes the call `Modity`, if there is one.
pub record Ready : Type 0 where
  pub fd : ℕ
  pub events : ℕ
  pub clock : ℕ → Tick
  pub received : Recv
  pub sent : Send
  pub modifies : Bool

module _ (o : NetworkOptions) (build_stats : InnerStats → ServerMetrics → Bytes) where
  written : Ready → SubReactor → Option (Session × Option ℕ) → Option SubReactor
  written e r none = none
  written e r (some (s, asked)) =
      if modify_refused e.modifies asked
      then none
      else some
          (record r { clients = put e.fd s.conn r.clients; metrics = s.metrics; store = s.store })

  handle_found : Ready → SubReactor → Option Connection → Option SubReactor
  unfolding written
  handle_found e r none = some r
  handle_found e r (some conn) = written e r (
      handle_ready o build_stats (is_running r.state) e.events e.clock e.received e.sent
        (record { conn = conn; metrics = r.metrics; store = r.store }))

  -- The loop's body for one ready event; `none` where a handler throws.
  pub handle_event : Ready → SubReactor → Option SubReactor
  unfolding handle_found
  handle_event e r = handle_found e r (find e.fd r.clients)

  and_rest : (SubReactor → Option SubReactor) → Option SubReactor → Option SubReactor
  and_rest next none = none
  and_rest next (some r) = next r

  pub handle_events : List Ready → SubReactor → Option SubReactor
  unfolding handle_event and_rest
  handle_events [] r = some r
  handle_events (e ∷ es) r = and_rest (handle_events es) (handle_event e r)

  settle : ℕ → Option SubReactor → Option SubReactor
  settle now none = none
  settle now (some r) = some (check_shutdown_progress now (cleanup_closed_connections r))

  -- The rest of a round: nothing, where the control event has stopped the reactor.
  serve_clients : ℕ → List Ready → SubReactor → Option SubReactor
  unfolding settle
  serve_clients now events r =
      if is_stopped_state r.state then some r else settle now (handle_events events r)

  -- The control event, if there is one.
  handle_control : (ℕ → Bool) → (ℕ → Bool) → Bool → SubReactor → Option SubReactor
  handle_control adds modifies control r =
      if not control
      then some r
      else if control_throws o modifies r
      then none
      else some (process_control_requests o adds r)

  -- One round: what `Wait` returns is the control event, if there is one, and the clients' events.
  -- `adds` and `modifies` say which descriptors the poller takes while the control event is
  -- handled.
  pub round : (ℕ → Bool) → (ℕ → Bool) → ℕ → Bool → List Ready → SubReactor → Option SubReactor
  unfolding serve_clients handle_control and_rest
  round adds modifies now control events r =
      and_rest (serve_clients now events) (handle_control adds modifies control r)

  -- The calls of the other threads, and what the loop's thread does while the loop is not over. A
  -- handler that throws, at whatever point, may have changed the counters and the store, and so may other reactors.
  pub data Step : SubReactor → SubReactor → Type 0 where
    enqued : {r : SubReactor} (fd : ℕ) → Step r (enque_client fd r).0
    stop_asked : {r : SubReactor} (deadline : ℕ) → Step r (stop deadline r)
    force_asked : {r : SubReactor} → Step r (force_stop r)
    controlled :
        {r : SubReactor} (adds : ℕ → Bool)
        → is_stopped_state r.state ≡ false
        → Step r (process_control_requests o adds r)
    handled :
        {r r' : SubReactor} (e : Ready)
        → is_stopped_state r.state ≡ false
        → handle_event e r ≡ some r'
        → Step r r'
    cleaned :
        {r : SubReactor} → is_stopped_state r.state ≡ false → Step r (cleanup_closed_connections r)
    progressed :
        {r : SubReactor} (now : ℕ)
        → is_stopped_state r.state ≡ false
        → Step r (check_shutdown_progress now r)
    threw :
        {r : SubReactor} (metrics : ServerMetrics) (store : KvStore)
        → is_stopped_state r.state ≡ false
        → Step r (fail (record r { metrics = metrics; store = store }))
    shared :
        {r : SubReactor} (metrics : ServerMetrics) (store : KvStore)
        → Step r (record r { metrics = metrics; store = store })

  pub data Reach (r : SubReactor) : SubReactor → Type 0 where
    here : Reach r r
    later : {t u : SubReactor} → Reach r t → Step t u → Reach r u
