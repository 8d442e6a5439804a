-- ===== src/Net/Tests.antt =====
-- Runs of src/net/sub_reactor.cpp and src/net/tcp_server.cpp.
use tinykvcache.Prelude.{
  ℕ, ◌≡◌, ◌≢◌, ◌≤◌, length, ◌⊎◌, refl, Bool, true, false, List, [], ◌∷◌, none, some, arith, leb,
  if◌then◌else◌,
}
use tinykvcache.Prelude.Int.{pos}
use tinykvcache.Core.FrameCodec.{Bytes}
use tinykvcache.Core.KvStore as Store
use tinykvcache.Net.OutputBuffer as Output
use tinykvcache.Net.IoEvent.{no_event}
use tinykvcache.Net.Connection.{
  Connection, Session, default_options, new_connection, desired_events, update_read_back_pressure,
  refresh_connection_interest,
}
use tinykvcache.Net.Connection.Bounds.{new_connection-IsBounded}
use tinykvcache.Net.Connection.Interest.{told, read_paused-update, refresh-registered}
use tinykvcache.Net.ClientEvents.{Tick, Recv, received, send_would_block, handle_ready}
use tinykvcache.Net.ClientEvents.Limits.{ReplyBounded, handle_ready-IsBounded}
use tinykvcache.Net.SubReactor.{
  SubReactor, running, draining, stopped, is_stopped, begin_graceful_shutdown,
  process_control_requests, check_shutdown_progress,
}
use tinykvcache.Net.SubReactor.Counted.{IsCounted, process_control_requests-IsCounted}
use tinykvcache.Net.SubReactor.Shutdown.{
  AllDraining, begin_graceful_shutdown-AllDraining, check_shutdown_progress-deadline,
}
use tinykvcache.Net.TcpServer.{
  TcpServer, Accepted, client, interrupted, would_block, accept_new_clients, accept_loop, assign,
  enque_at,
}
use tinykvcache.Net.TcpServer as Server
use tinykvcache.Net.TcpServer.Accepting.{IsReady, Took, taken, AllOpen, accept_new_clients-Took}
use tinykvcache.Net.TcpServer.Draining.{wake_all, check_shutdown_progress_ends}
use tinykvcache.Observability.ServerMetrics as Metrics
use tinykvcache.Observability.ServerMetrics.{ServerMetrics}

abbrev conn : Connection
conn = new_connection 5

abbrev session : Session
session = record { conn = conn; metrics = Metrics.init; store = Store.init }

abbrev no_stats : Store.InnerStats → ServerMetrics → Bytes
no_stats s m = b'+' ∷ []

abbrev clock : ℕ → Tick
clock i = record { begin = i; elapsed = pos 1 }

abbrev ping_frame : Recv
ping_frame = received (0 ∷ 0 ∷ 0 ∷ 4 ∷ b'P' ∷ b'I' ∷ b'N' ∷ b'G' ∷ [])

handle_ready-IsBounded_example :
    ReplyBounded default_options no_stats
      (handle_ready default_options no_stats true 3 clock ping_frame send_would_block session)
handle_ready-IsBounded_example =
    handle_ready-IsBounded default_options no_stats true 3 clock ping_frame send_would_block session
      (new_connection-IsBounded default_options 5)

read_paused-update_example :
    (update_read_back_pressure default_options session).conn.read_paused ≡ (
      if leb default_options.write_high_watermark_bytes (Output.size conn.write_buffer)
      then true
      else if leb (Output.size conn.write_buffer) default_options.write_low_watermark_bytes
      then false
      else conn.read_paused)
read_paused-update_example = read_paused-update default_options session (omega arith) refl refl

refresh-registered_example :
    (((refresh_connection_interest default_options session).0.conn.closed ≡ true)
      × ((refresh_connection_interest default_options session).1 ≡ none))
    ⊎ ((told conn.registered_events (refresh_connection_interest default_options session).1
          ≡ (refresh_connection_interest default_options session).0.conn.registered_events)
        × ((refresh_connection_interest default_options session).0.conn.registered_events
            ≡ desired_events (refresh_connection_interest default_options session).0.conn)
        × ((refresh_connection_interest default_options session).0.conn.registered_events
            ≢ no_event)
        × ((refresh_connection_interest default_options session).1 ≢ some conn.registered_events))
refresh-registered_example = refresh-registered default_options session refl

-- A reactor with one client.
abbrev reactor : SubReactor
reactor = record {
  state = running;
  published_state = running;
  pending_clients = [];
  clients = (5, conn) ∷ [];
  stop_requested = false;
  force_stop_requested = false;
  failed = false;
  requested_shutdown_deadline = 0;
  shutdown_deadline = 0;
  metrics = Metrics.init;
  store = Store.init;
}

abbrev forced : SubReactor
forced = record reactor { force_stop_requested = true }

abbrev late : SubReactor
late = record reactor { state = draining; published_state = draining; shutdown_deadline = 9 }

abbrev takes_all : ℕ → Bool
takes_all fd = true

begin_graceful_shutdown-AllDraining_example :
    AllDraining (begin_graceful_shutdown default_options 100 reactor).clients
begin_graceful_shutdown-AllDraining_example =
    begin_graceful_shutdown-AllDraining default_options 100 reactor refl

check_shutdown_progress-deadline_example :
    (is_stopped (check_shutdown_progress 10 late) ≡ true)
    × ((check_shutdown_progress 10 late).clients ≡ [])
check_shutdown_progress-deadline_example =
    check_shutdown_progress-deadline 10 late refl (omega arith)

abbrev server : TcpServer
server = record {
  state = running;
  listening = true;
  sub_reactors = reactor ∷ reactor ∷ [];
  next_sub_reactor_index = 1;
  shutdown_deadline = 0;
  force_stop_sent = false;
}

server-IsReady : IsReady server
unfolding AllOpen
server-IsReady = record { all_open = (refl, refl, (refl, refl, tt)); in_range = omega arith }

abbrev arrivals : List Accepted
arrivals = interrupted ∷ client 7 ∷ client 8 ∷ would_block ∷ []

abbrev after_arrivals : TcpServer
after_arrivals = assign 8 (assign 7 server)

accepts_two : accept_new_clients default_options arrivals server ≡ some after_arrivals
unfolding accept_new_clients accept_loop
accepts_two = refl

accept_new_clients-Took_example :
    (length (taken default_options.max_accepts_per_event arrivals)
      ≤ default_options.max_accepts_per_event)
    × Took (taken default_options.max_accepts_per_event arrivals) server after_arrivals
accept_new_clients-Took_example =
    accept_new_clients-Took default_options arrivals server after_arrivals server-IsReady
      accepts_two

abbrev draining_server : TcpServer
draining_server = record server { state = draining; shutdown_deadline = 50 }

check_shutdown_progress_ends_example :
    (Server.check_shutdown_progress 70 (
      wake_all default_options takes_all (Server.check_shutdown_progress 60 draining_server))).state
    ≡ stopped
check_shutdown_progress_ends_example =
    check_shutdown_progress_ends default_options takes_all 60 70 draining_server refl refl
      (omega arith)

-- Its client is counted, and it has been asked to stop.
abbrev counted_reactor : SubReactor
counted_reactor = record reactor {
  stop_requested = true;
  metrics = record Metrics.init { accepted_connections = 1; active_connections = 1 };
}

reactor-IsCounted : IsCounted 0 counted_reactor
reactor-IsCounted = record { counts = refl }

process_control_requests-IsCounted_example :
    IsCounted 0 (process_control_requests default_options takes_all counted_reactor)
process_control_requests-IsCounted_example =
    process_control_requests-IsCounted default_options takes_all 0 counted_reactor reactor-IsCounted
