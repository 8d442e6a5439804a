-- ===== src/Net/SubReactor/Loop/Settled.antt =====
-- `EventLoop` of src/net/sub_reactor.cpp: what a round of the loop leaves.
use tinykvcache.Prelude.{
  ℕ, ◌≡◌, ◌≢◌, ◌<◌, ◌⊎◌, refl, ap, ◌∙◌, subst, Bool, true, false, ◌&&◌, ◌==◌, leb, List, [], ◌∷◌,
  Option, none, some, inl, inr, Bool-cases, length, arith,
}
use tinykvcache.Prelude.Map.{Map}
use tinykvcache.Net.Connection.{NetworkOptions, Connection}
use tinykvcache.Net.SubReactor.{
  SubReactor, is_running, is_draining, is_stopped_state, process_control_requests, control_throws,
  cleanup_closed_connections, check_shutdown_progress, erase_closed, publish_state,
  begin_graceful_shutdown,
}
use tinykvcache.Net.SubReactor.Loop.{
  Ready, handle_event, handle_events, and_rest, settle, serve_clients, handle_control, round,
}
use tinykvcache.Net.SubReactor.Loop.Operations.{Control, control}
use tinykvcache.Net.SubReactor.Loop.Rounds.{control-event}
use tinykvcache.Core.KvStore.{InnerStats}
use tinykvcache.Core.FrameCodec.{Bytes}
use tinykvcache.Observability.ServerMetrics.{ServerMetrics, on_connection_closed}

-- No client is closed.
unfoldable pub NoneClosed : Map ℕ Connection → Type 0
NoneClosed [] = Unit {0}
NoneClosed ((fd, conn) ∷ clients) = (conn.closed ≡ false) × NoneClosed clients

erase_closed-NoneClosed :
    (clients : Map ℕ Connection) (m : ServerMetrics) → NoneClosed (erase_closed clients m).0
unfolding erase_closed NoneClosed
erase_closed-NoneClosed [] m = tt
erase_closed-NoneClosed ((fd, conn) ∷ clients) m = elim (Bool-cases conn.closed) [
  | inl gone ↦ rw gone (erase_closed-NoneClosed clients (on_connection_closed m))
  | inr kept ↦ rw kept (refl, erase_closed-NoneClosed clients m)
]

-- A reactor that goes on behind a round that has been served at `now`: the requests to stop that the
-- round has seen are obeyed.
pub record GoesOn (control : Bool) (now : ℕ) (r t : SubReactor) : Type 0 where
  pub none_closed : NoneClosed t.clients
  pub in_time :
      (is_draining t.state ≡ false) ⊎ ((now < t.shutdown_deadline) × (length t.clients ≢ 0))
  pub not_forced : (control && r.force_stop_requested) ≡ false
  pub not_running : (control && r.stop_requested && is_running t.state) ≡ false

abbrev pub Settled : Bool → ℕ → SubReactor → SubReactor → Type 0
Settled control now r t = (is_stopped_state t.state ≡ true) ⊎ GoesOn control now r t

-- The requests that a control event obeys.
record Obeyed (control : Bool) (r u : SubReactor) : Type 0 where
  unforced : (control && r.force_stop_requested) ≡ false
  stopping : (control && r.stop_requested && is_running u.state) ≡ false

begin-running :
    (o : NetworkOptions) (deadline : ℕ) (r : SubReactor)
    → is_running (begin_graceful_shutdown o deadline r).state ≡ false
unfolding begin_graceful_shutdown cleanup_closed_connections publish_state
begin-running o deadline r = ground arith

process-Obeyed :
    (o : NetworkOptions) (adds : ℕ → Bool) (r : SubReactor)
    → (is_stopped_state (process_control_requests o adds r).state ≡ true)
      ⊎ Obeyed true r (process_control_requests o adds r)
unfolding process_control_requests publish_state
process-Obeyed o adds r = elim (Bool-cases r.force_stop_requested) [
  | inl forced ↦ rw forced (inl refl)
  | inr free ↦ elim (Bool-cases r.stop_requested) [
    | inl asked ↦
        rw (free, asked)
          (inr (record {
            unforced = ground arith;
            stopping = ground (
              arith,
              begin-running o r.requested_shutdown_deadline (record r { pending_clients = [] }),
            );
          }))
    | inr going ↦
        rw (free, going) (inr (record { unforced = ground arith; stopping = ground arith }))
  ]
]

module _ (o : NetworkOptions) (build_stats : InnerStats → ServerMetrics → Bytes) where
  SettledAll : Bool → ℕ → SubReactor → Option SubReactor → Type 0
  SettledAll c now r none = Unit {0}
  SettledAll c now r (some t) = Settled c now r t

  -- What the events of the clients leave as it is.
  SameAll : SubReactor → Option SubReactor → Type 0
  SameAll u none = Unit {0}
  SameAll u (some v) = control v ≡ control u

  next-SameAll :
      (e : Ready) (u v : SubReactor) (rest : SubReactor → Option SubReactor)
      (next : Option SubReactor)
      → handle_event o build_stats e v ≡ next
      → control v ≡ control u
      → ((w : SubReactor) → control w ≡ control u → SameAll u (rest w))
      → SameAll u (and_rest o build_stats rest next)
  unfolding and_rest SameAll
  next-SameAll e u v rest none h k g = tt
  next-SameAll e u v rest (some w) h k g = g w (control-event o build_stats e v w h ∙ k)

  events-SameAll :
      (es : List Ready) (u v : SubReactor)
      → control v ≡ control u
      → SameAll u (handle_events o build_stats es v)
  unfolding handle_events SameAll
  events-SameAll [] u v k = k
  events-SameAll (e ∷ es) u v k =
      next-SameAll e u v (handle_events o build_stats es) (handle_event o build_stats e v) refl k
        (λ w g. events-SameAll es u w g)

  -- The end of a round.
  check-Settled :
      (c : Bool) (now : ℕ) (r v : SubReactor)
      → NoneClosed v.clients
      → Obeyed c r v
      → Settled c now r (check_shutdown_progress now v)
  unfolding check_shutdown_progress publish_state
  check-Settled c now r v n b = elim (Bool-cases (is_draining v.state)) [
    | inl drains ↦ elim (Bool-cases (length v.clients == 0)) [
      | inl nobody ↦ rw (drains, nobody) (inl refl)
      | inr clients ↦ elim (Bool-cases (leb v.shutdown_deadline now)) [
        | inl late ↦ rw (drains, clients, late) (inl refl)
        | inr early ↦
            rw (drains, clients, early)
              (inr (record {
                none_closed = n;
                in_time = inr (ground arith, ground arith);
                not_forced = b.unforced;
                not_running = b.stopping;
              }))
      ]
    ]
    | inr other ↦ rw other (
        inr (record {
          none_closed = n;
          in_time = inl other;
          not_forced = b.unforced;
          not_running = b.stopping;
        }))
  ]

  settle-Settled :
      (c : Bool) (now : ℕ) (r u : SubReactor) (v : Option SubReactor)
      → SameAll u v
      → Obeyed c r u
      → SettledAll c now r (settle o build_stats now v)
  unfolding settle SettledAll SameAll cleanup_closed_connections
  settle-Settled c now r u none k b = tt
  settle-Settled c now r u (some v) k b =
      check-Settled c now r (cleanup_closed_connections v)
        (erase_closed-NoneClosed v.clients v.metrics)
        (record {
          unforced = b.unforced;
          stopping = ap (λ (x : Control). c && r.stop_requested && is_running x.0) k ∙ b.stopping;
        })

  serve-Settled :
      (c : Bool) (now : ℕ) (events : List Ready) (r u : SubReactor)
      → (is_stopped_state u.state ≡ true) ⊎ Obeyed c r u
      → SettledAll c now r (serve_clients o build_stats now events u)
  unfolding serve_clients
  serve-Settled c now events r u (inl stops) = rw stops (unfold SettledAll in inl stops)
  serve-Settled c now events r u (inr b) = elim (Bool-cases (is_stopped_state u.state)) [
    | inl stops ↦ rw stops (unfold SettledAll in inl stops)
    | inr goes ↦ rw goes (
        settle-Settled c now r u (handle_events o build_stats events u)
          (events-SameAll events u u refl) b)
  ]

  control-Settled :
      (adds modifies : ℕ → Bool) (now : ℕ) (c : Bool) (events : List Ready) (r : SubReactor)
      → SettledAll c now r (
          and_rest o build_stats
            (serve_clients o build_stats now events)
            (handle_control o build_stats adds modifies c r))
  unfolding and_rest handle_control
  control-Settled adds modifies now false events r =
      serve-Settled false now events r r (inr (record { unforced = refl; stopping = refl }))
  control-Settled adds modifies now true events r =
      elim (Bool-cases (control_throws o modifies r)) [
        | inl throws ↦ rw throws (unfold SettledAll in tt)
        | inr goes ↦ rw goes (
            serve-Settled true now events r (process_control_requests o adds r)
              (process-Obeyed o adds r))
      ]

  -- Behind a round of the loop at `now` in which no handler throws, the reactor has stopped; or none
  -- of its clients is closed, if it drains then it has clients and the deadline has not been
  -- reached, and where the round has seen the control event, it was not told to stop at once, and
  -- does not run if it was asked to stop.
  pub round-Settled :
      (adds modifies : ℕ → Bool) (now : ℕ) (control : Bool) (events : List Ready) (r t : SubReactor)
      → round o build_stats adds modifies now control events r ≡ some t
      → Settled control now r t
  unfolding round SettledAll
  round-Settled adds modifies now control events r t e =
      subst (SettledAll control now r) e (control-Settled adds modifies now control events r)
