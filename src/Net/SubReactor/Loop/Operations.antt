-- ===== src/Net/SubReactor/Loop/Operations.antt =====
-- src/net/sub_reactor.cpp: the operations on a reactor and what they keep.
use tinykvcache.Prelude.{
  ℕ, ◌≡◌, refl, sym, ap, ◌∙◌, subst, Bool, true, false, ◌||◌, [], inl, inr, Bool-cases, arith, ◌==◌,
  leb, length,
}
use tinykvcache.Prelude.Equality.{nat_eq}
use tinykvcache.Net.Connection.{NetworkOptions}
use tinykvcache.Net.SubReactor.{
  SubReactor, ServerState, stopped, is_running, is_draining, is_stopped_state, enque_client, stop,
  force_stop, publish_state, cleanup_closed_connections, check_shutdown_progress, fail,
  force_close_all_connections, erase_closed,
}
use tinykvcache.Net.SubReactor.Shutdown.{erase_all, empty_of_length}
use tinykvcache.Net.SubReactor.Loop.Clients.{AllKept, none-AllClients, erase-AllClients}
use tinykvcache.Core.KvStore.{KvStore}
use tinykvcache.Observability.ServerMetrics.{ServerMetrics, add_forced_shutdown_connections}

pub record Inv (o : NetworkOptions) (r : SubReactor) : Type 0 where
  pub published : r.published_state ≡ r.state
  pub kept : AllKept o (is_running r.state) r.clients
  pub empty : is_stopped_state r.state ≡ true → r.clients ≡ []
  pub asked :
      is_running r.state ≡ false → (r.stop_requested || r.force_stop_requested || r.failed) ≡ true
  pub failed_stopped : r.failed ≡ true → is_stopped_state r.state ≡ true

abbrev pub Control : Type 0
Control = ServerState × ServerState × Bool × Bool × Bool

abbrev pub control : SubReactor → Control
control r = (r.state, r.published_state, r.stop_requested, r.force_stop_requested, r.failed)

module _ (o : NetworkOptions) where
  pub same_control-Inv :
      (r t : SubReactor)
      → control t ≡ control r
      → AllKept o (is_running r.state) t.clients
      → (is_stopped_state r.state ≡ true → t.clients ≡ [])
      → Inv o r
      → Inv o t
  same_control-Inv r t e k c h =
      let state : t.state ≡ r.state = ap (λ (c : Control). c.0) e in
      record {
        published = ap (λ (c : Control). c.1) e ∙ h.published ∙ sym state;
        kept = subst (λ (s : ServerState). AllKept o (is_running s) t.clients) (sym state) k;
        empty = λ s. c (ap is_stopped_state (sym state) ∙ s);
        asked = λ s.
            ap (λ (c : Control). c.2 || c.3 || c.4) e ∙ h.asked (ap is_running (sym state) ∙ s);
        failed_stopped = λ f.
            ap is_stopped_state state ∙ h.failed_stopped (sym (ap (λ (c : Control). c.4) e) ∙ f);
      }

  pub stopped-Inv :
      (r : SubReactor)
      → r.state ≡ stopped
      → r.published_state ≡ stopped
      → r.clients ≡ []
      → (r.stop_requested || r.force_stop_requested || r.failed) ≡ true
      → Inv o r
  stopped-Inv r s p c a = record {
    published = p ∙ sym s;
    kept = rw c (none-AllClients _);
    empty = λ h. c;
    asked = λ h. a;
    failed_stopped = λ h. ap is_stopped_state s;
  }

  pub cleanup-Inv : (r : SubReactor) → Inv o r → Inv o (cleanup_closed_connections r)
  unfolding cleanup_closed_connections
  cleanup-Inv r h =
      let none_left : (m : ServerMetrics) → (erase_closed [] m).0 ≡ [] =
        λ m. unfold erase_closed in refl in
      same_control-Inv r _ refl (erase-AllClients _ r.clients r.metrics h.kept)
        (λ s. rw (h.empty s) (none_left r.metrics)) h

  forced_clients : (r : SubReactor) → (force_close_all_connections r).clients ≡ []
  unfolding force_close_all_connections cleanup_closed_connections
  forced_clients r =
      erase_all r.clients (add_forced_shutdown_connections (length r.clients) r.metrics)

  -- Whether the reactor has been told to stop, or has failed.
  abbrev pub IsAsked : SubReactor → Type 0
  IsAsked r = (r.stop_requested || r.force_stop_requested || r.failed) ≡ true

  pub forced-Inv :
      (r : SubReactor) → IsAsked r → Inv o (publish_state stopped (force_close_all_connections r))
  unfolding publish_state
  forced-Inv r a =
      stopped-Inv _ refl refl (forced_clients r)
        (unfold force_close_all_connections in unfold cleanup_closed_connections in a)

  pub progress-Inv : (now : ℕ) (r : SubReactor) → Inv o r → Inv o (check_shutdown_progress now r)
  unfolding check_shutdown_progress
  progress-Inv now r h = elim (Bool-cases (is_draining r.state)) [
    | inr stays ↦ rw stays h
    | inl drains ↦
        let asked : IsAsked r = h.asked (ground arith) in
        elim (Bool-cases (length r.clients == 0)) [
          | inl none_left ↦
              rw (drains, none_left)
                (stopped-Inv _ (unfold publish_state in refl) (unfold publish_state in refl)
                  (unfold publish_state in empty_of_length r.clients none_left)
                  (unfold publish_state in asked))
          | inr some_left ↦ elim (Bool-cases (leb r.shutdown_deadline now)) [
            | inl past ↦ rw (drains, some_left, past) (forced-Inv r asked)
            | inr early ↦ rw (drains, some_left, early) h
          ]
        ]
  ]

  pub fail-Inv :
      (metrics : ServerMetrics) (store : KvStore) (r : SubReactor)
      → Inv o (fail (record r { metrics = metrics; store = store }))
  unfolding fail publish_state
  fail-Inv metrics store r = stopped-Inv _ refl refl refl (ground arith)

  pub enque-Inv : (fd : ℕ) (r : SubReactor) → Inv o r → Inv o (enque_client fd r).0
  unfolding enque_client
  enque-Inv fd r h = elim (Bool-cases (r.stop_requested || r.force_stop_requested)) [
    | inl shut ↦ simp shut h
    | inr free ↦ simp free (same_control-Inv r _ refl h.kept h.empty h)
  ]

  pub stop-Inv : (deadline : ℕ) (r : SubReactor) → Inv o r → Inv o (stop deadline r)
  unfolding stop
  stop-Inv deadline r h = record {
    published = h.published;
    kept = h.kept;
    empty = h.empty;
    asked = λ s. refl;
    failed_stopped = h.failed_stopped;
  }

  pub force_stop-Inv : (r : SubReactor) → Inv o r → Inv o (force_stop r)
  unfolding force_stop
  force_stop-Inv r h = record {
    published = h.published;
    kept = h.kept;
    empty = h.empty;
    asked = λ s. ground arith;
    failed_stopped = h.failed_stopped;
  }
