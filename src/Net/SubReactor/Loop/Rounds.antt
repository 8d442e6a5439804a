-- ===== src/Net/SubReactor/Loop/Rounds.antt =====
-- `EventLoop` of src/net/sub_reactor.cpp: a round of the loop as steps, and what steps never undo.
use tinykvcache.Prelude.{
  ℕ, ◌≡◌, refl, ap, ◌∙◌, subst, Bool, true, false, List, [], ◌∷◌, Option, none, some, inl, inr,
  Bool-cases,
}
use tinykvcache.Net.Connection.{NetworkOptions, Session, Connection, modify_refused}
use tinykvcache.Net.SubReactor.{
  SubReactor, is_stopped_state, control_throws, cleanup_closed_connections,
}
use tinykvcache.Net.SubReactor.Loop.{
  Ready, controlled, handled, cleaned, progressed, Reach, here, later, handle_event, handle_events,
  and_rest, settle, serve_clients, handle_control, round, written, handle_found,
}
use tinykvcache.Net.SubReactor.Loop.Operations.{Control, control}
use tinykvcache.Core.KvStore.{InnerStats}
use tinykvcache.Core.FrameCodec.{Bytes}
use tinykvcache.Observability.ServerMetrics.{ServerMetrics}

module _ (o : NetworkOptions) (build_stats : InnerStats → ServerMetrics → Bytes) where
  -- The clients' events change no state, and ask for nothing.
  SameState : SubReactor → Option SubReactor → Type 0
  SameState r none = Unit {0}
  SameState r (some t) = control t ≡ control r

  written-SameState :
      (e : Ready) (r : SubReactor) (reply : Option (Session × Option ℕ))
      → SameState r (written o build_stats e r reply)
  unfolding written SameState
  written-SameState e r none = tt
  written-SameState e r (some (s, asked)) = elim (Bool-cases (modify_refused e.modifies asked)) [
    | inl refused ↦ rw refused tt
    | inr taken ↦ rw taken refl
  ]

  found-SameState :
      (e : Ready) (r : SubReactor) (old : Option Connection)
      → SameState r (handle_found o build_stats e r old)
  unfolding handle_found SameState
  found-SameState e r none = refl
  found-SameState e r (some conn) = written-SameState e r _

  pub control-event :
      (e : Ready) (r t : SubReactor)
      → handle_event o build_stats e r ≡ some t
      → control t ≡ control r
  unfolding handle_event SameState
  control-event e r t h = subst (SameState r) h (found-SameState e r _)

  -- Steps from `r` to what is reached.
  Reaches : SubReactor → Option SubReactor → Type 0
  Reaches r none = Unit {0}
  Reaches r (some t) = Reach o build_stats r t

  -- A reactor that has not stopped, some steps on.
  record Going (r t : SubReactor) : Type 0 where
    path : Reach o build_stats r t
    goes : is_stopped_state t.state ≡ false

  AllGoing : SubReactor → Option SubReactor → Type 0
  AllGoing r none = Unit {0}
  AllGoing r (some t) = Going r t

  next-AllGoing :
      (e : Ready) (r t : SubReactor) (rest : SubReactor → Option SubReactor)
      (next : Option SubReactor)
      → handle_event o build_stats e t ≡ next
      → ((u : SubReactor) → Going r u → AllGoing r (rest u))
      → Going r t
      → AllGoing r (and_rest o build_stats rest next)
  unfolding and_rest AllGoing
  next-AllGoing e r t rest none h k g = tt
  next-AllGoing e r t rest (some u) h k g = k u (record {
    path = later g.path (handled e g.goes h);
    goes = ap (λ (c : Control). is_stopped_state c.0) (control-event e t u h) ∙ g.goes;
  })

  events-AllGoing :
      (es : List Ready) (r t : SubReactor)
      → Going r t
      → AllGoing r (handle_events o build_stats es t)
  unfolding handle_events AllGoing
  events-AllGoing [] r t g = g
  events-AllGoing (e ∷ es) r t g =
      next-AllGoing e r t (handle_events o build_stats es) (handle_event o build_stats e t) refl
        (λ u k. events-AllGoing es r u k) g

  settle-Reaches :
      (now : ℕ) (r : SubReactor) (t : Option SubReactor)
      → AllGoing r t
      → Reaches r (settle o build_stats now t)
  unfolding settle AllGoing Reaches cleanup_closed_connections
  settle-Reaches now r none g = tt
  settle-Reaches now r (some t) g = later (later g.path (cleaned g.goes)) (progressed now g.goes)

  serve-Reaches :
      (now : ℕ) (events : List Ready) (r t : SubReactor)
      → Reach o build_stats r t
      → Reaches r (serve_clients o build_stats now events t)
  unfolding serve_clients
  serve-Reaches now events r t p = elim (Bool-cases (is_stopped_state t.state)) [
    | inl stops ↦ rw stops (unfold Reaches in p)
    | inr goes ↦ rw goes (
        settle-Reaches now r (handle_events o build_stats events t)
          (events-AllGoing events r t (record { path = p; goes = goes })))
  ]

  controlled-Reaches :
      (now : ℕ) (events : List Ready) (r : SubReactor) (adds modifies : ℕ → Bool) (control : Bool)
      → is_stopped_state r.state ≡ false
      → Reaches r (
          and_rest o build_stats
            (serve_clients o build_stats now events)
            (handle_control o build_stats adds modifies control r))
  unfolding and_rest handle_control
  controlled-Reaches now events r adds modifies false h = serve-Reaches now events r r here
  controlled-Reaches now events r adds modifies true h =
      elim (Bool-cases (control_throws o modifies r)) [
        | inl throws ↦ rw throws (unfold Reaches in tt)
        | inr goes ↦ rw goes (serve-Reaches now events r _ (later here (controlled adds h)))
      ]

  -- A round of the loop of a reactor that has not stopped, in which no handler throws, is a sequence
  -- of steps.
  pub round-Reach :
      (adds modifies : ℕ → Bool) (now : ℕ) (control : Bool) (events : List Ready) (r t : SubReactor)
      → is_stopped_state r.state ≡ false
      → round o build_stats adds modifies now control events r ≡ some t
      → Reach o build_stats r t
  unfolding round Reaches
  round-Reach adds modifies now control events r t h e =
      subst (Reaches r) e (controlled-Reaches now events r adds modifies control h)
