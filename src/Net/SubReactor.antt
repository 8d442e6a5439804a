-- ===== src/Net/SubReactor.antt =====
-- src/net/sub_reactor.cpp: the life of a reactor and of its set of clients. What its thread
-- and the threads that call it do is taken as a sequence of these operations. `m_controlMutex` makes
-- one step of each that other threads call; what the loop's thread does without it is its own, but
-- for `m_failed` and the published state, which `fail` sets at once and the source one behind the
-- other. A time is a count of nanoseconds of the steady clock.
pub mod Counted
pub mod Shutdown
pub mod Loop
use tinykvcache.Prelude.{
  ℕ, ◌+◌, ◌-◌, ◌*◌, ◌/◌, Bool, true, false, not, ◌&&◌, ◌||◌, List, [], ◌∷◌, ◌++◌, Option, none,
  some, leb, ltb, ◌==◌, if◌then◌else◌, length, min,
}
use tinykvcache.Prelude.Equality.{nat_eq}
use tinykvcache.Prelude.Map.{Map, find, put}
use tinykvcache.Net.OutputBuffer as Output
use tinykvcache.Net.Connection.{
  NetworkOptions, Connection, Session, new_connection, mark_closed, desired_events, modify_refused,
  refresh_connection_interest,
}
use tinykvcache.Core.KvStore.{KvStore}
use tinykvcache.Observability.ServerMetrics.{
  ServerMetrics, on_connection_accepted, on_connection_closed, add_forced_shutdown_connections,
}

-- include/tinykv/common/server_info.h
pub data ServerState : Type 0 where
  created running draining stopped : ServerState

abbrev pub is_running : ServerState → Bool
is_running running = true
is_running _ = false

abbrev pub is_draining : ServerState → Bool
is_draining draining = true
is_draining _ = false

abbrev pub is_stopped_state : ServerState → Bool
is_stopped_state stopped = true
is_stopped_state _ = false

-- `published_state` is what other threads read. The counters and the store are shared.
pub record SubReactor : Type 0 where
  pub state : ServerState
  pub published_state : ServerState
  pub pending_clients : List ℕ
  pub clients : Map ℕ Connection
  pub stop_requested : Bool
  pub force_stop_requested : Bool
  pub failed : Bool
  pub requested_shutdown_deadline : ℕ
  pub shutdown_deadline : ℕ
  pub metrics : ServerMetrics
  pub store : KvStore

-- False: the reactor has been asked to stop, and the caller's descriptor is closed.
pub enque_client : ℕ → SubReactor → SubReactor × Bool
enque_client fd r =
    if r.stop_requested || r.force_stop_requested
    then (r, false)
    else (record r { pending_clients = r.pending_clients ++ (fd ∷ []) }, true)

pub stop : ℕ → SubReactor → SubReactor
stop deadline r = record r {
  stop_requested = true;
  requested_shutdown_deadline =
      if not r.stop_requested || ltb deadline r.requested_shutdown_deadline
      then deadline
      else r.requested_shutdown_deadline;
}

pub force_stop : SubReactor → SubReactor
force_stop r = record r { force_stop_requested = true }

pub is_stopped : SubReactor → Bool
is_stopped r = is_stopped_state r.published_state

pub publish_state : ServerState → SubReactor → SubReactor
publish_state s r = record r { state = s; published_state = s }

-- `std::min(limit, remaining)`, in milliseconds.
pub wait_until : ℕ → ℕ → ℕ → ℕ
wait_until limit deadline now =
    if leb deadline now
    then 0
    else (let remaining = (deadline - now) / (1000 * 1000) in
        if remaining == 0 then min limit 1 else min limit remaining)

pub compute_wait_timeout : ℕ → SubReactor → ℕ
unfolding wait_until
compute_wait_timeout now r =
    if is_running r.state
    then 500
    else if is_draining r.state
    then wait_until 100 r.shutdown_deadline now
    else 0

-- The clients that are left, and the counters.
pub erase_closed : Map ℕ Connection → ServerMetrics → Map ℕ Connection × ServerMetrics
erase_closed [] m = ([], m)
erase_closed ((fd, conn) ∷ clients) m =
    let gone = erase_closed clients (on_connection_closed m) in
    let kept = erase_closed clients m in if conn.closed then gone else ((fd, conn) ∷ kept.0, kept.1)

-- The poller forgets the descriptors of the clients that go; its errors are only logged.
pub cleanup_closed_connections : SubReactor → SubReactor
unfolding erase_closed
cleanup_closed_connections r =
    let (clients', metrics') = erase_closed r.clients r.metrics in
    record r { clients = clients'; metrics = metrics' }

pub close_all : Map ℕ Connection → Map ℕ Connection
close_all [] = []
close_all ((fd, conn) ∷ clients) = (fd, mark_closed conn) ∷ close_all clients

pub force_close_all_connections : SubReactor → SubReactor
unfolding cleanup_closed_connections close_all
force_close_all_connections r = cleanup_closed_connections (record r {
  metrics = add_forced_shutdown_connections (length r.clients) r.metrics;
  clients = close_all r.clients;
})

pub check_shutdown_progress : ℕ → SubReactor → SubReactor
unfolding force_close_all_connections publish_state
check_shutdown_progress now r =
    if not (is_draining r.state)
    then r
    else if length r.clients == 0
    then publish_state stopped r
    else if leb r.shutdown_deadline now
    then publish_state stopped (force_close_all_connections r)
    else r

-- The loop body for one client, where the poller takes the call `Modity`.
pub drain_client : NetworkOptions → Session → Session
drain_client o s =
    let c = record s.conn { read_paused = true; close_after_write = true } in
    if Output.is_empty c.write_buffer
    then record s { conn = mark_closed c }
    else (refresh_connection_interest o (record s { conn = c })).0

-- The argument of the call `Modity` for that client, if there is one.
drain_asks : NetworkOptions → Session → Option ℕ
drain_asks o s =
    let c = record s.conn { read_paused = true; close_after_write = true } in
    if Output.is_empty c.write_buffer
    then none
    else (refresh_connection_interest o (record s { conn = c })).1

pub drain_clients :
    NetworkOptions → KvStore → Map ℕ Connection → ServerMetrics → Map ℕ Connection × ServerMetrics
unfolding drain_client
drain_clients o store [] m = ([], m)
drain_clients o store ((fd, conn) ∷ clients) m =
    let s = drain_client o (record { conn = conn; metrics = m; store = store }) in
    let rest = drain_clients o store clients s.metrics in ((fd, s.conn) ∷ rest.0, rest.1)

-- A call of `Modity` throws; `modifies` says for which descriptors the poller takes it.
pub drain_refused : NetworkOptions → (ℕ → Bool) → KvStore → Map ℕ Connection → ServerMetrics → Bool
unfolding drain_client drain_asks
drain_refused o modifies store [] m = false
drain_refused o modifies store ((fd, conn) ∷ clients) m =
    let s : Session = record { conn = conn; metrics = m; store = store } in
    let rest = drain_refused o modifies store clients (drain_client o s).metrics in
    modify_refused (modifies fd) (drain_asks o s) || rest

-- Where the poller takes the calls `Modity`.
pub begin_graceful_shutdown : NetworkOptions → ℕ → SubReactor → SubReactor
unfolding drain_clients cleanup_closed_connections publish_state
begin_graceful_shutdown o deadline r =
    let (clients', metrics') = drain_clients o r.store r.clients r.metrics in
    let t = cleanup_closed_connections (record (publish_state draining r) {
      shutdown_deadline = deadline;
      clients = clients';
      metrics = metrics';
    }) in
    if not (is_running r.state)
    then r
    else if length t.clients == 0
    then publish_state stopped t
    else t

pub add_new : ℕ → Bool → Option Connection → SubReactor → SubReactor
add_new fd added (some conn) r = r
add_new fd added none r =
    let conn = new_connection fd in
    if added
    then record r {
      clients = put fd (record conn { registered_events = desired_events conn }) r.clients;
      metrics = on_connection_accepted r.metrics;
    }
    else r

-- A descriptor that is a client's already, or that the poller refuses (`added` is false), changes
-- nothing: the exception is logged by the caller.
pub add_client_in_loop : ℕ → Bool → SubReactor → SubReactor
unfolding add_new
add_client_in_loop fd added r = add_new fd added (find fd r.clients) r

pub add_clients : (ℕ → Bool) → List ℕ → SubReactor → SubReactor
unfolding add_client_in_loop
add_clients adds [] r = r
add_clients adds (fd ∷ fds) r = add_clients adds fds (add_client_in_loop fd (adds fd) r)

-- `adds` says which descriptors the poller takes. The calls `Modity` are taken.
pub process_control_requests : NetworkOptions → (ℕ → Bool) → SubReactor → SubReactor
unfolding force_close_all_connections begin_graceful_shutdown add_clients publish_state
process_control_requests o adds r =
    let t = record r { pending_clients = [] } in
    if r.force_stop_requested
    then publish_state stopped (force_close_all_connections t)
    else if r.stop_requested
    then begin_graceful_shutdown o r.requested_shutdown_deadline t
    else add_clients adds r.pending_clients t

-- `ProcessControlRequests` throws: `BeginGracefulShutdown` is called on a reactor that runs, and the
-- poller refuses a call of `Modity`.
pub control_throws : NetworkOptions → (ℕ → Bool) → SubReactor → Bool
unfolding drain_refused
control_throws o modifies r =
    not r.force_stop_requested
    && r.stop_requested
    && is_running r.state
    && drain_refused o modifies r.store r.clients r.metrics

pub has_failed : SubReactor → Bool
has_failed r = r.failed

-- The `catch` of `EventLoop`.
pub fail : SubReactor → SubReactor
unfolding publish_state
fail r = publish_state stopped (record r { failed = true; clients = [] })

-- The members behind the constructor, with the state that `Start` publishes.
pub start : ServerMetrics → KvStore → SubReactor
start metrics store = record {
  state = running;
  published_state = running;
  pending_clients = [];
  clients = [];
  stop_requested = false;
  force_stop_requested = false;
  failed = false;
  requested_shutdown_deadline = 0;
  shutdown_deadline = 0;
  metrics = metrics;
  store = store;
}
