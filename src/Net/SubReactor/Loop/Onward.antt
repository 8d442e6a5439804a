-- ===== src/Net/SubReactor/Loop/Onward.antt =====
-- src/net/sub_reactor.cpp: the order of a reactor's states.
use tinykvcache.Prelude.{
  sym, ℕ, ◌≤◌, ◌≡◌, refl, ap, ◌∙◌, subst, Bool, true, false, not, ◌||◌, [], inl, inr, Bool-cases,
  arith, if◌then◌else◌, ◌==◌, leb, length,
}
use tinykvcache.Prelude.Map.{Map}
use tinykvcache.Net.Connection.{NetworkOptions, Connection}
use tinykvcache.Net.SubReactor.{
  is_stopped, is_stopped_state, SubReactor, ServerState, created, running, draining, stopped,
  is_running, is_draining, enque_client, stop, force_stop, process_control_requests, publish_state,
  cleanup_closed_connections, check_shutdown_progress, fail, force_close_all_connections,
  begin_graceful_shutdown, drain_clients,
}
use tinykvcache.Net.SubReactor.Loop.{
  Step, enqued, stop_asked, force_asked, controlled, handled, cleaned, progressed, threw, shared,
  Reach, here, later,
}
use tinykvcache.Net.SubReactor.Loop.Operations.{Inv, Control, control}
use tinykvcache.Net.SubReactor.Loop.Requests.{control-add_clients}
use tinykvcache.Net.SubReactor.Loop.Reached.{Step-Inv}
use tinykvcache.Net.SubReactor.Loop.Rounds.{control-event}
use tinykvcache.Core.KvStore.{InnerStats}
use tinykvcache.Core.FrameCodec.{Bytes}
use tinykvcache.Observability.ServerMetrics.{ServerMetrics}

abbrev pub rank : ServerState → ℕ
rank created = 0
rank running = 1
rank draining = 2
rank stopped = 3

pub record Onward (r t : SubReactor) : Type 0 where
  pub later_state : rank r.state ≤ rank t.state
  pub stop_kept : r.stop_requested ≡ true → t.stop_requested ≡ true
  pub force_kept : r.force_stop_requested ≡ true → t.force_stop_requested ≡ true
  pub failed_kept : r.failed ≡ true → t.failed ≡ true

trans-Onward : (r t u : SubReactor) → Onward r t → Onward t u → Onward r u
trans-Onward r t u h k = record {
  later_state = omega (arith, h.later_state, k.later_state);
  stop_kept = λ s. k.stop_kept (h.stop_kept s);
  force_kept = λ s. k.force_kept (h.force_kept s);
  failed_kept = λ s. k.failed_kept (h.failed_kept s);
}

same-Onward : (r t : SubReactor) → control t ≡ control r → Onward r t
same-Onward r t e = record {
  later_state = subst (λ (c : Control). rank c.0 ≤ rank t.state) e (omega arith);
  stop_kept = λ s. ap (λ (c : Control). c.2) e ∙ s;
  force_kept = λ s. ap (λ (c : Control). c.3) e ∙ s;
  failed_kept = λ s. ap (λ (c : Control). c.4) e ∙ s;
}

rank_top : (s : ServerState) → rank s ≤ 3
rank_top created = omega arith
rank_top running = omega arith
rank_top draining = omega arith
rank_top stopped = omega arith

rank_running : (s : ServerState) → is_running s ≡ true → rank s ≤ 2
rank_running created h = omega arith
rank_running running h = omega arith
rank_running draining h = omega arith
rank_running stopped h = absurd (ground arith)

stopped-Onward : (r t : SubReactor) → control t ≡ control (publish_state stopped r) → Onward r t
unfolding publish_state
stopped-Onward r t e =
    let k = same-Onward (publish_state stopped r) t e in
    record {
      later_state = omega (arith, k.later_state, rank_top r.state);
      stop_kept = k.stop_kept;
      force_kept = k.force_kept;
      failed_kept = k.failed_kept;
    }

if-Onward :
    (r : SubReactor) (t : Bool) (x y : SubReactor)
    → (t ≡ true → Onward r x)
    → (t ≡ false → Onward r y)
    → Onward r (if t then x else y)
if-Onward r true x y a b = a refl
if-Onward r false x y a b = b refl

forced-Onward : (r : SubReactor) → Onward r (publish_state stopped (force_close_all_connections r))
unfolding publish_state force_close_all_connections cleanup_closed_connections
forced-Onward r = stopped-Onward r _ refl

progress-Onward : (now : ℕ) (r : SubReactor) → Onward r (check_shutdown_progress now r)
unfolding check_shutdown_progress
progress-Onward now r =
    let self = same-Onward r r refl in
    if-Onward r (not (is_draining r.state)) _ _ (λ h. self)
      (λ h.
        if-Onward r (length r.clients == 0) _ _ (λ h. stopped-Onward r _ refl)
          (λ h. if-Onward r (leb r.shutdown_deadline now) _ _ (λ h. forced-Onward r) (λ h. self)))

drained-Onward :
    (deadline : ℕ) (clients : Map ℕ Connection) (metrics : ServerMetrics) (r : SubReactor)
    → is_running r.state ≡ true
    → Onward r (
        cleanup_closed_connections (record (publish_state draining r) {
          shutdown_deadline = deadline;
          clients = clients;
          metrics = metrics;
        }))
unfolding cleanup_closed_connections publish_state
drained-Onward deadline clients metrics r h = record {
  later_state = rank_running r.state h;
  stop_kept = λ s. s;
  force_kept = λ s. s;
  failed_kept = λ s. s;
}

module _ (o : NetworkOptions) where
  drain-Onward : (deadline : ℕ) (r : SubReactor) → Onward r (begin_graceful_shutdown o deadline r)
  unfolding begin_graceful_shutdown
  drain-Onward deadline r =
      let d = drain_clients o r.store r.clients r.metrics in
      let t = cleanup_closed_connections (record (publish_state draining r) {
        shutdown_deadline = deadline;
        clients = d.0;
        metrics = d.1;
      }) in
      if-Onward r (not (is_running r.state)) r _ (λ h. same-Onward r r refl)
        (λ h.
          let to_t : Onward r t = drained-Onward deadline d.0 d.1 r (ground arith) in
          if-Onward r (length t.clients == 0) (publish_state stopped t) t
            (λ k. trans-Onward r t _ to_t (stopped-Onward t _ refl)) (λ k. to_t))

  control-Onward : (adds : ℕ → Bool) (r : SubReactor) → Onward r (process_control_requests o adds r)
  unfolding process_control_requests
  control-Onward adds r =
      let t : SubReactor = record r { pending_clients = [] } in
      let to_t : Onward r t = same-Onward r t refl in
      if-Onward r r.force_stop_requested _ _ (λ h. trans-Onward r t _ to_t (forced-Onward t))
        (λ h.
          if-Onward r r.stop_requested _ _
            (λ k. trans-Onward r t _ to_t (drain-Onward r.requested_shutdown_deadline t))
            (λ k. same-Onward r _ (control-add_clients o adds r.pending_clients t)))

  enque-Onward : (fd : ℕ) (r : SubReactor) → Onward r (enque_client fd r).0
  unfolding enque_client
  enque-Onward fd r = elim (Bool-cases (r.stop_requested || r.force_stop_requested)) [
    | inl shut ↦ simp shut (same-Onward r r refl)
    | inr free ↦ simp free (same-Onward r _ refl)
  ]

pub stop_told : (deadline : ℕ) (r : SubReactor) → (stop deadline r).stop_requested ≡ true
unfolding stop
stop_told deadline r = refl

stop-Onward : (deadline : ℕ) (r : SubReactor) → Onward r (stop deadline r)
unfolding stop
stop-Onward deadline r = record {
  later_state = omega arith;
  stop_kept = λ s. refl;
  force_kept = λ s. s;
  failed_kept = λ s. s;
}

force_stop-Onward : (r : SubReactor) → Onward r (force_stop r)
unfolding force_stop
force_stop-Onward r = record {
  later_state = omega arith;
  stop_kept = λ s. s;
  force_kept = λ s. refl;
  failed_kept = λ s. s;
}

fail-Onward : (r : SubReactor) → Onward r (fail r)
unfolding fail publish_state
fail-Onward r = record {
  later_state = rank_top r.state;
  stop_kept = λ s. s;
  force_kept = λ s. s;
  failed_kept = λ s. refl;
}

cleanup-Onward : (r : SubReactor) → Onward r (cleanup_closed_connections r)
unfolding cleanup_closed_connections
cleanup-Onward r = same-Onward r _ refl

module _ (o : NetworkOptions) (build_stats : InnerStats → ServerMetrics → Bytes) where
  pub Step-Onward : {r t : SubReactor} → Step o build_stats r t → Onward r t
  Step-Onward (enqued fd) = enque-Onward o fd _
  Step-Onward (stop_asked deadline) = stop-Onward deadline _
  Step-Onward force_asked = force_stop-Onward _
  Step-Onward (controlled adds s) = control-Onward o adds _
  Step-Onward {r = r} {t = t} (handled e s k) =
      same-Onward r t (control-event o build_stats e r t k)
  Step-Onward (cleaned s) = cleanup-Onward _
  Step-Onward (progressed now s) = progress-Onward now _
  Step-Onward {r = r} (threw metrics store s) =
      let t : SubReactor = record r { metrics = metrics; store = store } in
      trans-Onward r t _ (same-Onward r t refl) (fail-Onward t)
  Step-Onward {r = r} (shared metrics store) = same-Onward r _ refl

  -- A reactor that has stopped stays so.
  pub Step-stopped :
      {r t : SubReactor}
      → Step o build_stats r t
      → Inv o r
      → is_stopped r ≡ true
      → is_stopped t ≡ true
  unfolding is_stopped
  Step-stopped {r = r} {t = t} step h s =
      let state : is_stopped_state r.state ≡ true = ap is_stopped_state (sym h.published) ∙ s in
      let onward = (Step-Onward step).later_state in
      let published = (Step-Inv o build_stats step h).published in ground arith

  -- A reactor's states only go from running to draining to stopped, by any steps in any order, and
  -- neither a request to stop nor a failure is ever taken back.
  pub Reach-Onward : (r t : SubReactor) → Reach o build_stats r t → Onward r t
  Reach-Onward r _ here = same-Onward r r refl
  Reach-Onward r t (later {t = u} p step) =
      trans-Onward r u t (Reach-Onward r u p) (Step-Onward step)
