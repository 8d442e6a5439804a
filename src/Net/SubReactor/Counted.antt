-- ===== src/Net/SubReactor/Counted.antt =====
-- src/net/sub_reactor.cpp: a reactor's clients and the number of active connections that it shares
-- with the other reactors.
use tinykvcache.Prelude.{
  ℕ, suc, ◌+◌, ◌%◌, ◌^◌, ◌≡◌, refl, ap, inl, inr, Bool, true, false, List, [], ◌∷◌, Option, none,
  some, arith, Bool-cases, length, if◌then◌else◌,
}
use tinykvcache.Prelude.Equality.{nat_eq}
use tinykvcache.Prelude.Map.{Map, find, length-put_new}
use tinykvcache.Net.Connection.{NetworkOptions, Connection, Session, new_connection, desired_events}
use tinykvcache.Net.Connection.Interest.{active-refresh}
use tinykvcache.Core.KvStore.{KvStore}
use tinykvcache.Observability.ServerMetrics.{
  ServerMetrics, on_connection_closed, add_forced_shutdown_connections,
}
use tinykvcache.Observability.ServerMetrics.Balance.{
  active-on_connection_closed, active-on_connection_accepted,
  active-add_forced_shutdown_connections,
}
use tinykvcache.Net.SubReactor.{
  SubReactor, erase_closed, cleanup_closed_connections, close_all, force_close_all_connections,
  publish_state, drain_client, drain_clients, begin_graceful_shutdown, add_new, add_client_in_loop,
  add_clients, process_control_requests,
}

-- The other reactors have `others` clients, up to wrap-around.
abbrev pub Counts : ℕ → Map ℕ Connection → ServerMetrics → Type 0
Counts others clients m = (others + length clients) % 2 ^ 64 ≡ m.active_connections % 2 ^ 64

erase_closed-Counts :
    (others : ℕ) (clients : Map ℕ Connection) (m : ServerMetrics)
    → Counts others clients m
    → Counts others (erase_closed clients m).0 (erase_closed clients m).1
unfolding erase_closed
erase_closed-Counts others [] m c = c
erase_closed-Counts others ((fd, conn) ∷ clients) m c = elim (Bool-cases conn.closed) [
  | inl gone ↦
      let closed = active-on_connection_closed m in
      simp gone
        (erase_closed-Counts others clients (on_connection_closed m) (omega (arith, c, closed)))
  | inr kept ↦
      let rest : Counts (others + 1) (erase_closed clients m).0 (erase_closed clients m).1 =
        erase_closed-Counts (others + 1) clients m (omega (arith, c)) in
      simp kept (omega (arith, rest))
]

length-close_all : (clients : Map ℕ Connection) → length (close_all clients) ≡ length clients
unfolding close_all
length-close_all [] = refl
length-close_all (c ∷ clients) = ap suc (length-close_all clients)

pub record IsCounted (others : ℕ) (r : SubReactor) : Type 0 where
  pub counts : Counts others r.clients r.metrics

force_close-IsCounted :
    (others : ℕ) (r : SubReactor)
    → IsCounted others r
    → IsCounted others (force_close_all_connections r)
unfolding force_close_all_connections cleanup_closed_connections
force_close-IsCounted others r c =
    let m = add_forced_shutdown_connections (length r.clients) r.metrics in
    record {
      counts = erase_closed-Counts others (close_all r.clients) m (
          omega (
            arith,
            c.counts,
            length-close_all r.clients,
            active-add_forced_shutdown_connections (length r.clients) r.metrics,
          ));
    }

active-drain_client :
    (o : NetworkOptions) (s : Session)
    → (drain_client o s).metrics.active_connections ≡ s.metrics.active_connections
unfolding drain_client
active-drain_client o s =
    let c : Connection = record s.conn { read_paused = true; close_after_write = true } in
    let t : Session = record { conn = c; metrics = s.metrics; store = s.store } in
    ground (arith, active-refresh o t)

drain_clients-Counts :
    (o : NetworkOptions) (store : KvStore) (others : ℕ) (clients : Map ℕ Connection)
    (m : ServerMetrics)
    → Counts others clients m
    → Counts others (drain_clients o store clients m).0 (drain_clients o store clients m).1
unfolding drain_clients
drain_clients-Counts o store others [] m c = c
drain_clients-Counts o store others ((fd, conn) ∷ clients) m c =
    let s : Session = record { conn = conn; metrics = m; store = store } in
    let same = active-drain_client o s in
    let rest =
      drain_clients-Counts o store (others + 1) clients (drain_client o s).metrics
        (omega (arith, c, same)) in
    omega (arith, rest)

begin-IsCounted :
    (o : NetworkOptions) (deadline others : ℕ) (r : SubReactor)
    → IsCounted others r
    → IsCounted others (begin_graceful_shutdown o deadline r)
unfolding begin_graceful_shutdown cleanup_closed_connections publish_state
begin-IsCounted o deadline others r c =
    let d = drain_clients o r.store r.clients r.metrics in
    let e =
      erase_closed-Counts others d.0 d.1
        (drain_clients-Counts o r.store others r.clients r.metrics c.counts) in
    record { counts = ground (arith, e, c.counts) }

if-IsCounted :
    (others : ℕ) (t : Bool) (x y : SubReactor)
    → IsCounted others x
    → IsCounted others y
    → IsCounted others (if t then x else y)
if-IsCounted others true x y a b = a
if-IsCounted others false x y a b = b

add_new-IsCounted :
    (fd : ℕ) (added : Bool) (others : ℕ) (r : SubReactor) (old : Option Connection)
    → find fd r.clients ≡ old
    → IsCounted others r
    → IsCounted others (add_new fd added old r)
unfolding add_new
add_new-IsCounted fd added others r (some conn) h c = c
add_new-IsCounted fd false others r none h c = c
add_new-IsCounted fd true others r none h c =
    let conn : Connection = record (new_connection fd) {
      registered_events = desired_events (new_connection fd);
    } in
    let grown = length-put_new fd conn r.clients h in
    record { counts = omega (arith, c.counts, grown, active-on_connection_accepted r.metrics) }

add_clients-IsCounted :
    (adds : ℕ → Bool) (fds : List ℕ) (others : ℕ) (r : SubReactor)
    → IsCounted others r
    → IsCounted others (add_clients adds fds r)
unfolding add_clients add_client_in_loop
add_clients-IsCounted adds [] others r c = c
add_clients-IsCounted adds (fd ∷ fds) others r c =
    add_clients-IsCounted adds fds others (add_client_in_loop fd (adds fd) r)
      (add_new-IsCounted fd (adds fd) others r (find fd r.clients) refl c)

-- A control event, whatever it asks for, unless it throws, keeps the number of active connections that
-- of the clients of this reactor and of the others, up to wrap-around.
pub process_control_requests-IsCounted :
    (o : NetworkOptions) (adds : ℕ → Bool) (others : ℕ) (r : SubReactor)
    → IsCounted others r
    → IsCounted others (process_control_requests o adds r)
unfolding process_control_requests publish_state
process_control_requests-IsCounted o adds others r c =
    let t : SubReactor = record r { pending_clients = [] } in
    let d : IsCounted others t = record { counts = c.counts } in
    let forced = force_close-IsCounted others t d in
    let stopping = begin-IsCounted o r.requested_shutdown_deadline others t d in
    let adding = add_clients-IsCounted adds r.pending_clients others t d in
    if-IsCounted others r.force_stop_requested _ _ (record { counts = forced.counts })
      (if-IsCounted others r.stop_requested _ _ stopping adding)
