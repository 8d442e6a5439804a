-- ===== src/Net/SubReactor/Shutdown.antt =====
-- src/net/sub_reactor.cpp: what a reactor that is asked to stop does with its clients.
use tinykvcache.Prelude.{
  ℕ, ◌≤◌, ◌≡◌, ◌∙◌, refl, inl, inr, Bool, true, false, [], ◌∷◌, ◌++◌, arith, Bool-cases, ◌==◌,
  length, min,
}
use tinykvcache.Prelude.Map.{Map}
use tinykvcache.Net.OutputBuffer as Output
use tinykvcache.Net.Connection.{
  NetworkOptions, Connection, Session, mark_closed, refresh_connection_interest,
}
use tinykvcache.Net.Connection.Interest.{closed-mark_closed, refresh_closing, refresh_closed}
use tinykvcache.Core.KvStore.{KvStore}
use tinykvcache.Observability.ServerMetrics.{
  ServerMetrics, on_connection_closed, add_forced_shutdown_connections,
}
use tinykvcache.Net.SubReactor.{
  running, draining, SubReactor, enque_client, stop, force_stop, is_stopped, publish_state,
  erase_closed, cleanup_closed_connections, close_all, force_close_all_connections,
  check_shutdown_progress, drain_client, drain_clients, begin_graceful_shutdown,
  process_control_requests,
}

-- A client that a reactor may keep while it drains: there is something to send to it, and nothing
-- more is read.
pub record IsDraining (c : Connection) : Type 0 where
  pub alive : c.closed ≡ false
  pub paused : c.read_paused ≡ true
  pub closing : c.close_after_write ≡ true
  pub pending : Output.is_empty c.write_buffer ≡ false

-- Draining clients, and those to be erased.
data Settled (c : Connection) : Type 0 where
  gone : c.closed ≡ true → Settled c
  waiting : IsDraining c → Settled c

AllSettled : Map ℕ Connection → Type 0
AllSettled [] = Unit {0}
AllSettled ((fd, conn) ∷ clients) = Settled conn × AllSettled clients

pub AllDraining : Map ℕ Connection → Type 0
AllDraining [] = Unit {0}
AllDraining ((fd, conn) ∷ clients) = IsDraining conn × AllDraining clients

close_all_closed :
    (conn : Connection) (fd : ℕ) (clients : Map ℕ Connection) (m : ServerMetrics)
    → conn.closed ≡ true
    → (erase_closed ((fd, conn) ∷ clients) m).0 ≡ (erase_closed clients (on_connection_closed m)).0
unfolding erase_closed
close_all_closed conn fd clients m h = ground arith

pub erase_all :
    (clients : Map ℕ Connection) (m : ServerMetrics) → (erase_closed (close_all clients) m).0 ≡ []
unfolding close_all
erase_all [] m = unfold erase_closed in refl
erase_all ((fd, conn) ∷ clients) m =
    rw (close_all_closed (mark_closed conn) fd (close_all clients) m (closed-mark_closed conn))
      (erase_all clients (on_connection_closed m))

erase-AllDraining :
    (clients : Map ℕ Connection) (m : ServerMetrics)
    → AllSettled clients
    → AllDraining (erase_closed clients m).0
unfolding erase_closed AllSettled AllDraining
erase-AllDraining [] m a = tt
erase-AllDraining ((fd, conn) ∷ clients) m (gone g, a) =
    simp g (erase-AllDraining clients (on_connection_closed m) a)
erase-AllDraining ((fd, conn) ∷ clients) m (waiting w, a) =
    simp w.alive (w, erase-AllDraining clients m a)

refresh-Settled :
    (o : NetworkOptions) (s : Session)
    → s.conn.closed ≡ false
    → s.conn.read_paused ≡ true
    → s.conn.close_after_write ≡ true
    → Output.is_empty s.conn.write_buffer ≡ false
    → Settled (refresh_connection_interest o s).0.conn
refresh-Settled o s c p k e =
    let (c', p', k', w') = refresh_closing o s c k e in
    waiting (record { alive = c'; paused = p' ∙ p; closing = k'; pending = rw w' e })

drain_client-Settled : (o : NetworkOptions) (s : Session) → Settled (drain_client o s).conn
unfolding drain_client
drain_client-Settled o s =
    let c : Connection = record s.conn { read_paused = true; close_after_write = true } in
    let t : Session = record { conn = c; metrics = s.metrics; store = s.store } in
    elim (Bool-cases (Output.is_empty s.conn.write_buffer)) [
      | inl e ↦ simp e (gone (closed-mark_closed c))
      | inr e ↦ elim (Bool-cases s.conn.closed) [
        | inl k ↦ simp e (gone (refresh_closed o t k))
        | inr k ↦ simp e (refresh-Settled o t k refl refl e)
      ]
    ]

drain_clients-AllSettled :
    (o : NetworkOptions) (store : KvStore) (clients : Map ℕ Connection) (m : ServerMetrics)
    → AllSettled (drain_clients o store clients m).0
unfolding drain_clients AllSettled
drain_clients-AllSettled o store [] m = tt
drain_clients-AllSettled o store ((fd, conn) ∷ clients) m =
    let s : Session = record { conn = conn; metrics = m; store = store } in
    (drain_client-Settled o s, drain_clients-AllSettled o store clients (drain_client o s).metrics)

-- A running reactor that begins to stop, where the poller takes the calls `Modity`, keeps only clients
-- that have something to be sent, that are to be closed after it, and that are not read from.
pub begin_graceful_shutdown-AllDraining :
    (o : NetworkOptions) (deadline : ℕ) (r : SubReactor)
    → r.state ≡ running
    → AllDraining (begin_graceful_shutdown o deadline r).clients
unfolding begin_graceful_shutdown cleanup_closed_connections publish_state
begin_graceful_shutdown-AllDraining o deadline r h =
    let d = drain_clients o r.store r.clients r.metrics in
    let e = erase-AllDraining d.0 d.1 (drain_clients-AllSettled o r.store r.clients r.metrics) in
    ground (arith, e)

-- A reactor that has been told to stop by force is stopped by its next control event, with no client
-- and none waiting.
pub process_control_requests-force :
    (o : NetworkOptions) (adds : ℕ → Bool) (r : SubReactor)
    → r.force_stop_requested ≡ true
    → (is_stopped (process_control_requests o adds r) ≡ true)
      × ((process_control_requests o adds r).clients ≡ [])
      × ((process_control_requests o adds r).pending_clients ≡ [])
unfolding process_control_requests force_close_all_connections cleanup_closed_connections
    publish_state is_stopped
process_control_requests-force o adds r h =
    ground
      (arith, erase_all r.clients (add_forced_shutdown_connections (length r.clients) r.metrics))

pub empty_of_length : (clients : Map ℕ Connection) → (length clients == 0) ≡ true → clients ≡ []
empty_of_length [] h = refl
empty_of_length (c ∷ clients) h = absurd (ground arith)

-- A draining reactor that is past its deadline stops, with no client left.
pub check_shutdown_progress-deadline :
    (now : ℕ) (r : SubReactor)
    → r.state ≡ draining
    → r.shutdown_deadline ≤ now
    → (is_stopped (check_shutdown_progress now r) ≡ true)
      × ((check_shutdown_progress now r).clients ≡ [])
unfolding check_shutdown_progress force_close_all_connections cleanup_closed_connections
    publish_state is_stopped
check_shutdown_progress-deadline now r h past = ground (
  arith,
  erase_all r.clients (add_forced_shutdown_connections (length r.clients) r.metrics),
  empty_of_length r.clients,
)

-- Of two requests to stop, the earlier deadline counts.
pub stop-earliest :
    (d e : ℕ) (r : SubReactor)
    → (stop e (stop d r)).requested_shutdown_deadline ≡ min e (stop d r).requested_shutdown_deadline
unfolding stop
stop-earliest d e r = ground arith

pub is_stopped-force_stop : (r : SubReactor) → is_stopped (force_stop r) ≡ is_stopped r
unfolding is_stopped force_stop
is_stopped-force_stop r = refl

pub force_stop-requested : (r : SubReactor) → (force_stop r).force_stop_requested ≡ true
unfolding force_stop
force_stop-requested r = refl

pub enque_client_open :
    (fd : ℕ) (r : SubReactor)
    → r.stop_requested ≡ false
    → r.force_stop_requested ≡ false
    → enque_client fd r ≡ (record r { pending_clients = r.pending_clients ++ (fd ∷ []) }, true)
unfolding enque_client
enque_client_open fd r s f = ground arith
