-- ===== src/Net/SubReactor/Loop/Total.antt =====
-- `EventLoop` of src/net/sub_reactor.cpp and the exceptions of its handlers.
use tinykvcache.Prelude.{
  arith, ℕ, ◌≡◌, ◌≢◌, refl, Bool, true, false, List, [], ◌∷◌, Option, none, some, inl, inr,
  Bool-cases, if◌then◌else◌,
}
use tinykvcache.Prelude.Equality.{nat_eq}
use tinykvcache.Prelude.Map.{Map, find}
use tinykvcache.Net.Connection.{NetworkOptions, Session, Connection, modify_refused}
use tinykvcache.Net.ClientEvents.{on_read}
use tinykvcache.Net.ClientEvents.Returns.{IsAllowed, handle_ready_total}
use tinykvcache.Net.SubReactor.{
  SubReactor, is_running, is_stopped_state, process_control_requests, drain_refused, control_throws,
}
use tinykvcache.Net.SubReactor.Loop.{
  Ready, handle_event, handle_events, and_rest, settle, serve_clients, handle_control, round,
  written, handle_found,
}
use tinykvcache.Core.KvStore.{KvStore, InnerStats}
use tinykvcache.Core.FrameCodec.{Bytes}
use tinykvcache.Observability.ServerMetrics.{ServerMetrics}

never_refused : (asked : Option ℕ) → modify_refused true asked ≡ false
unfolding modify_refused
never_refused none = refl
never_refused (some events) = refl

-- The poller takes the call `Modity` for each client.
abbrev pub AllModified : (ℕ → Bool) → Map ℕ Connection → Type 0
AllModified modifies [] = Unit {0}
AllModified modifies ((fd, conn) ∷ clients) = (modifies fd ≡ true) × AllModified modifies clients

drain_total :
    (o : NetworkOptions) (modifies : ℕ → Bool) (store : KvStore) (clients : Map ℕ Connection)
    (m : ServerMetrics)
    → AllModified modifies clients
    → drain_refused o modifies store clients m ≡ false
unfolding drain_refused
drain_total o modifies store [] m h = refl
drain_total o modifies store ((fd, conn) ∷ clients) m h =
    rw (h.0, never_refused) (drain_total o modifies store clients _ h.1)

-- The control event throws nothing there.
control_total :
    (o : NetworkOptions) (modifies : ℕ → Bool) (r : SubReactor)
    → AllModified modifies r.clients
    → control_throws o modifies r ≡ false
unfolding control_throws
control_total o modifies r h = ground (arith, drain_total o modifies r.store r.clients r.metrics h)

module _ (o : NetworkOptions) (build_stats : InnerStats → ServerMetrics → Bytes) where
  -- `send` reports at most the bytes that it is passed, and the poller takes the call `Modity`, in each
  -- of the handlers.
  abbrev pub CallsAllowed : List Ready → SubReactor → Type 0
  CallsAllowed [] r = Unit {0}
  CallsAllowed (e ∷ es) r =
      ((conn : Connection)
        → find e.fd r.clients ≡ some conn
        → IsAllowed o
            (on_read o build_stats (is_running r.state) e.events e.clock e.received
              (record { conn = conn; metrics = r.metrics; store = r.store })).conn
            e.sent)
      × (e.modifies ≡ true)
      × ((t : SubReactor) → handle_event o build_stats e r ≡ some t → CallsAllowed es t)

  written_total :
      (e : Ready) (r : SubReactor) (reply : Option (Session × Option ℕ))
      → e.modifies ≡ true
      → reply ≢ none
      → written o build_stats e r reply ≢ none
  unfolding written
  written_total e r none m h = absurd (h refl)
  written_total e r (some (s, asked)) m h = rw (m, never_refused asked) (λ k. cc)

  found_total :
      (e : Ready) (r : SubReactor) (old : Option Connection)
      → e.modifies ≡ true
      → ((conn : Connection)
          → old ≡ some conn
          → IsAllowed o
              (on_read o build_stats
                (is_running r.state)
                e.events
                e.clock
                e.received
                (record { conn = conn; metrics = r.metrics; store = r.store })).conn
              e.sent)
      → handle_found o build_stats e r old ≢ none
  unfolding handle_found
  found_total e r none m a = λ h. cc
  found_total e r (some conn) m a = written_total e r _ m (
      handle_ready_total o build_stats (is_running r.state) e.events e.clock e.received e.sent _
        (a conn refl))

  next_total :
      (rest : SubReactor → Option SubReactor) (next : Option SubReactor)
      → next ≢ none
      → ((t : SubReactor) → next ≡ some t → rest t ≢ none)
      → and_rest o build_stats rest next ≢ none
  unfolding and_rest
  next_total rest none h k = absurd (h refl)
  next_total rest (some t) h k = k t refl

  events_total :
      (es : List Ready) (r : SubReactor)
      → CallsAllowed es r
      → handle_events o build_stats es r ≢ none
  unfolding handle_events handle_event
  events_total [] r a = λ h. cc
  events_total (e ∷ es) r a =
      next_total (handle_events o build_stats es) (handle_event o build_stats e r)
        (found_total e r (find e.fd r.clients) a.1 a.0) (λ t h. events_total es t (a.2 t h))

  settle_total : (now : ℕ) (t : Option SubReactor) → t ≢ none → settle o build_stats now t ≢ none
  unfolding settle
  settle_total now none h = absurd (h refl)
  settle_total now (some t) h = λ e. cc

  serve_total :
      (now : ℕ) (events : List Ready) (t : SubReactor)
      → CallsAllowed events t
      → serve_clients o build_stats now events t ≢ none
  unfolding serve_clients
  serve_total now events t a = elim (Bool-cases (is_stopped_state t.state)) [
    | inl stops ↦ rw stops (λ e. cc)
    | inr goes ↦
        rw goes (settle_total now (handle_events o build_stats events t) (events_total events t a))
  ]

  -- A round of the loop, from behind `Wait` and the draining of the control event on, throws no
  -- exception, logging and lack of memory aside, where `send` reports at most the bytes that it is
  -- passed, and the poller takes the call `Modity` for the client of each ready event and, in a
  -- shutdown that begins with the control event, for each client.
  pub round_total :
      (adds modifies : ℕ → Bool) (now : ℕ) (control : Bool) (events : List Ready) (r : SubReactor)
      → AllModified modifies r.clients
      → CallsAllowed events (if control then process_control_requests o adds r else r)
      → round o build_stats adds modifies now control events r ≢ none
  unfolding round handle_control and_rest
  round_total adds modifies now false events r m a = serve_total now events r a
  round_total adds modifies now true events r m a =
      rw (control_total o modifies r m)
        (serve_total now events (process_control_requests o adds r) a)
