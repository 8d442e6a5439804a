-- ===== src/Net/SubReactor/Loop/Requests.antt =====
-- src/net/sub_reactor.cpp: a control event and what it keeps of a reactor.
use tinykvcache.Prelude.{
  ℕ, ◌≡◌, refl, sym, ◌∙◌, subst, Bool, true, false, List, [], ◌∷◌, Option, none, some, inl, inr,
  Bool-cases, arith, if◌then◌else◌, ◌==◌, length,
}
use tinykvcache.Prelude.Equality.{nat_eq}
use tinykvcache.Prelude.Map.{Map, find}
use tinykvcache.Net.Connection.{NetworkOptions, Connection}
use tinykvcache.Net.SubReactor.{
  SubReactor, draining, is_running, is_stopped_state, process_control_requests, publish_state,
  cleanup_closed_connections, begin_graceful_shutdown, add_clients, add_client_in_loop, add_new,
  drain_clients,
}
use tinykvcache.Net.SubReactor.Shutdown.{empty_of_length}
use tinykvcache.Net.SubReactor.Loop.Clients.{AllKept, drain-AllKept, add_clients-AllKept}
use tinykvcache.Observability.ServerMetrics.{ServerMetrics}
use tinykvcache.Net.SubReactor.Loop.Operations.{
  Inv, control, IsAsked, same_control-Inv, stopped-Inv, cleanup-Inv, forced-Inv,
}

module _ (o : NetworkOptions) where
  -- The state of a reactor that drains and has been cleaned up.
  drained-Inv :
      (deadline : ℕ) (clients : Map ℕ Connection) (metrics : ServerMetrics) (r : SubReactor)
      → AllKept o false clients
      → r.failed ≡ false
      → IsAsked o r
      → Inv o (record (publish_state draining r) {
        shutdown_deadline = deadline;
        clients = clients;
        metrics = metrics;
      })
  unfolding publish_state
  drained-Inv deadline clients metrics r k f a = record {
    published = refl;
    kept = k;
    empty = λ h. absurd (ground arith);
    asked = λ h. a;
    failed_stopped = λ h. absurd (ground arith);
  }

  drain_start-Inv :
      (deadline : ℕ) (r : SubReactor)
      → is_stopped_state r.state ≡ false
      → IsAsked o r
      → Inv o r
      → Inv o (begin_graceful_shutdown o deadline r)
  unfolding begin_graceful_shutdown
  drain_start-Inv deadline r s a h = elim (Bool-cases (is_running r.state)) [
    | inr stays ↦ rw stays h
    | inl runs ↦
        let d = drain_clients o r.store r.clients r.metrics in
        let failed : r.failed ≡ false = let f = h.failed_stopped in ground arith in
        let k : AllKept o true r.clients =
          subst (λ (b : Bool). AllKept o b r.clients) runs h.kept in
        let t : SubReactor = record (publish_state draining r) {
          shutdown_deadline = deadline;
          clients = d.0;
          metrics = d.1;
        } in
        let i : Inv o (cleanup_closed_connections t) = cleanup-Inv o t (
          drained-Inv deadline d.0 d.1 r (drain-AllKept o r.store r.clients r.metrics false k)
            failed a) in
        elim (Bool-cases (length (cleanup_closed_connections t).clients == 0)) [
          | inl none_left ↦
              rw (runs, none_left)
                (stopped-Inv o _ (unfold publish_state in refl) (unfold publish_state in refl)
                  (unfold publish_state in empty_of_length _ none_left)
                  (unfold publish_state in unfold cleanup_closed_connections in a))
          | inr some_left ↦ rw (runs, some_left) i
        ]
  ]

  control-add_new :
      (fd : ℕ) (added : Bool) (old : Option Connection) (r : SubReactor)
      → control (add_new fd added old r) ≡ control r
  unfolding add_new
  control-add_new fd true (some conn) r = refl
  control-add_new fd false (some conn) r = refl
  control-add_new fd true none r = refl
  control-add_new fd false none r = refl

  pub control-add_clients :
      (adds : ℕ → Bool) (fds : List ℕ) (r : SubReactor)
      → control (add_clients adds fds r) ≡ control r
  unfolding add_clients add_client_in_loop
  control-add_clients adds [] r = refl
  control-add_clients adds (fd ∷ fds) r =
      control-add_clients adds fds (add_client_in_loop fd (adds fd) r)
      ∙ control-add_new fd (adds fd) (find fd r.clients) r

  if-Inv :
      (t : Bool) (x y : SubReactor)
      → (t ≡ true → Inv o x)
      → (t ≡ false → Inv o y)
      → Inv o (if t then x else y)
  if-Inv true x y a b = a refl
  if-Inv false x y a b = b refl

  pub control-Inv :
      (adds : ℕ → Bool) (r : SubReactor)
      → is_stopped_state r.state ≡ false
      → Inv o r
      → Inv o (process_control_requests o adds r)
  unfolding process_control_requests
  control-Inv adds r s h =
      let t : SubReactor = record r { pending_clients = [] } in
      let i : Inv o t = same_control-Inv o r t refl h.kept h.empty h in
      if-Inv r.force_stop_requested _ _ (λ f. forced-Inv o t (ground arith))
        (λ f.
          if-Inv r.stop_requested _ _
            (λ q. drain_start-Inv r.requested_shutdown_deadline t s (ground arith) i)
            (λ q.
              let runs : is_running r.state ≡ true =
                let a = h.asked in let g = h.failed_stopped in ground arith in
              let k : AllKept o true r.clients =
                subst (λ (b : Bool). AllKept o b r.clients) runs h.kept in
              same_control-Inv o t _ (control-add_clients adds r.pending_clients t)
                (subst (λ (b : Bool). AllKept o b (add_clients adds r.pending_clients t).clients)
                  (sym runs) (add_clients-AllKept o adds r.pending_clients t k))
                (λ stops. absurd (ground arith)) i))
