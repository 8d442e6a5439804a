-- ===== src/Net/SubReactor/Loop/Clients.antt =====
-- src/net/sub_reactor.cpp: what the operations on the set of clients do to each of them.
use tinykvcache.Prelude.{
  ℕ, ◌≡◌, refl, subst, Bool, true, false, List, [], ◌∷◌, Option, none, some, inl, inr, Bool-cases,
  arith, if◌then◌else◌, ◌==◌,
}
use tinykvcache.Prelude.Equality.{nat_eq}
use tinykvcache.Prelude.Map.{Map, find, put}
use tinykvcache.Net.OutputBuffer as Output
use tinykvcache.Net.Connection.{NetworkOptions, Connection, Session, new_connection, desired_events}
use tinykvcache.Net.Connection.Bounds.{
  IsBounded, new_connection-IsBounded, mark_closed-IsBounded, same_buffer-IsBounded,
  refresh-IsBounded,
}
use tinykvcache.Net.Connection.Closing.{IsClosing, mark_closed-IsClosing, refresh-IsClosing}
use tinykvcache.Net.SubReactor.{
  SubReactor, erase_closed, drain_client, drain_clients, add_new, add_client_in_loop, add_clients,
}
use tinykvcache.Core.KvStore.{KvStore}
use tinykvcache.Observability.ServerMetrics.{ServerMetrics, on_connection_closed}

-- What holds of each client.
pub AllClients : (Connection → Type 0) → Map ℕ Connection → Type 0
AllClients P [] = Unit {0}
AllClients P ((fd, conn) ∷ clients) = P conn × AllClients P clients

module _ (P : Connection → Type 0) where
  pub none-AllClients : AllClients P []
  unfolding AllClients
  none-AllClients = tt

  put_if :
      (t : Bool) (x y : Map ℕ Connection)
      → AllClients P x
      → AllClients P y
      → AllClients P (if t then x else y)
  put_if true x y a b = a
  put_if false x y a b = b

  pub put-AllClients :
      (fd : ℕ) (conn : Connection) (clients : Map ℕ Connection)
      → P conn
      → AllClients P clients
      → AllClients P (put fd conn clients)
  unfolding put AllClients
  put-AllClients fd conn [] h a = (h, a)
  put-AllClients fd conn ((j, c) ∷ clients) h a =
      put_if (j == fd) ((fd, conn) ∷ clients) ((j, c) ∷ put fd conn clients) (h, a.1)
        (a.0, put-AllClients fd conn clients h a.1)

  IsFound : Option Connection → Type 0
  IsFound none = Unit {0}
  IsFound (some conn) = P conn

  find-IsFound :
      (fd : ℕ) (clients : Map ℕ Connection) → AllClients P clients → IsFound (find fd clients)
  unfolding find AllClients IsFound
  find-IsFound fd [] a = tt
  find-IsFound fd ((j, c) ∷ clients) a = elim (Bool-cases (j == fd)) [
    | inl e ↦ rw e a.0
    | inr e ↦ rw e (find-IsFound fd clients a.1)
  ]

  pub find-AllClients :
      (fd : ℕ) (clients : Map ℕ Connection) (conn : Connection)
      → AllClients P clients
      → find fd clients ≡ some conn
      → P conn
  unfolding IsFound
  find-AllClients fd clients conn a e = subst IsFound e (find-IsFound fd clients a)

  pub erase-AllClients :
      (clients : Map ℕ Connection) (m : ServerMetrics)
      → AllClients P clients
      → AllClients P (erase_closed clients m).0
  unfolding erase_closed AllClients
  erase-AllClients [] m a = tt
  erase-AllClients ((fd, conn) ∷ clients) m a = elim (Bool-cases conn.closed) [
    | inl e ↦ simp e (erase-AllClients clients (on_connection_closed m) a.1)
    | inr e ↦ simp e (a.0, erase-AllClients clients m a.1)
  ]

drain_client-IsBounded :
    (o : NetworkOptions) (s : Session) → IsBounded o s.conn → IsBounded o (drain_client o s).conn
unfolding drain_client
drain_client-IsBounded o s b =
    let c : Connection = record s.conn { read_paused = true; close_after_write = true } in
    let t : Session = record s { conn = c } in
    elim (Bool-cases (Output.is_empty s.conn.write_buffer)) [
      | inl e ↦ simp e (mark_closed-IsBounded o c)
      | inr e ↦ simp e (refresh-IsBounded o t (same_buffer-IsBounded o s.conn c refl b))
    ]

drain_client-IsClosing : (o : NetworkOptions) (s : Session) → IsClosing (drain_client o s).conn
unfolding drain_client
drain_client-IsClosing o s =
    let c : Connection = record s.conn { read_paused = true; close_after_write = true } in
    let t : Session = record s { conn = c } in
    elim (Bool-cases (Output.is_empty s.conn.write_buffer)) [
      | inl e ↦ simp e (mark_closed-IsClosing c)
      | inr e ↦ simp e (refresh-IsClosing o t (record { closing = refl }))
    ]

-- What is known of each client, by whether the reactor runs.
pub record Kept (o : NetworkOptions) (runs : Bool) (c : Connection) : Type 0 where
  pub bounded : IsBounded o c
  pub closing : runs ≡ false → IsClosing c

abbrev pub AllKept : NetworkOptions → Bool → Map ℕ Connection → Type 0
AllKept o runs clients = AllClients (Kept o runs) clients

pub drain-AllKept :
    (o : NetworkOptions) (store : KvStore) (clients : Map ℕ Connection) (m : ServerMetrics)
    (runs : Bool)
    → AllKept o true clients
    → AllKept o runs (drain_clients o store clients m).0
unfolding drain_clients AllClients
drain-AllKept o store [] m runs a = tt
drain-AllKept o store ((fd, conn) ∷ clients) m runs a =
    let s : Session = record { conn = conn; metrics = m; store = store } in
    (
      record {
        bounded = drain_client-IsBounded o s a.0.bounded;
        closing = λ _. drain_client-IsClosing o s;
      },
      drain-AllKept o store clients (drain_client o s).metrics runs a.1,
    )

new_connection-Kept :
    (o : NetworkOptions) (fd : ℕ)
    → Kept o true
        (record (new_connection fd) { registered_events = desired_events (new_connection fd) })
new_connection-Kept o fd =
    let c = new_connection fd in
    record {
      bounded = same_buffer-IsBounded o c _ refl (new_connection-IsBounded o fd);
      closing = λ h. absurd (ground arith);
    }

add_new-AllKept :
    (o : NetworkOptions) (fd : ℕ) (added : Bool) (old : Option Connection) (r : SubReactor)
    → AllKept o true r.clients
    → AllKept o true (add_new fd added old r).clients
unfolding add_new
add_new-AllKept o fd true (some conn) r a = a
add_new-AllKept o fd false (some conn) r a = a
add_new-AllKept o fd true none r a =
    put-AllClients (Kept o true) fd _ r.clients (new_connection-Kept o fd) a
add_new-AllKept o fd false none r a = a

pub add_clients-AllKept :
    (o : NetworkOptions) (adds : ℕ → Bool) (fds : List ℕ) (r : SubReactor)
    → AllKept o true r.clients
    → AllKept o true (add_clients adds fds r).clients
unfolding add_clients add_client_in_loop
add_clients-AllKept o adds [] r a = a
add_clients-AllKept o adds (fd ∷ fds) r a =
    add_clients-AllKept o adds fds (add_client_in_loop fd (adds fd) r)
      (add_new-AllKept o fd (adds fd) (find fd r.clients) r a)
