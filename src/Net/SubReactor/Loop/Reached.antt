-- ===== src/Net/SubReactor/Loop/Reached.antt =====
-- src/net/sub_reactor.cpp: what holds of a reactor in every state that its loop and its callers reach.
use tinykvcache.Prelude.{
  ℕ, ◌≡◌, refl, subst, Bool, true, false, Option, none, some, arith, inl, inr, Bool-cases,
}
use tinykvcache.Prelude.Equality.{nat_eq}
use tinykvcache.Prelude.Map.{find}
use tinykvcache.Net.Connection.{NetworkOptions, Connection, Session, modify_refused}
use tinykvcache.Net.ClientEvents.{handle_ready}
use tinykvcache.Net.ClientEvents.Limits.{ReplyBounded, handle_ready-IsBounded}
use tinykvcache.Net.ClientEvents.Closing.{ReplyClosing, handle_ready-ReplyClosing}
use tinykvcache.Net.SubReactor.{SubReactor, is_running, is_stopped_state, start}
use tinykvcache.Net.SubReactor.Loop.{
  Ready, Step, enqued, stop_asked, force_asked, controlled, handled, cleaned, progressed, threw,
  shared, Reach, here, later, handle_event, handle_found, written,
}
use tinykvcache.Net.SubReactor.Loop.Clients.{Kept, none-AllClients, put-AllClients, find-AllClients}
use tinykvcache.Core.KvStore.{KvStore, InnerStats}
use tinykvcache.Core.FrameCodec.{Bytes}
use tinykvcache.Observability.ServerMetrics.{ServerMetrics}
use tinykvcache.Net.SubReactor.Loop.Operations.{
  Inv, same_control-Inv, cleanup-Inv, progress-Inv, fail-Inv, enque-Inv, stop-Inv, force_stop-Inv,
}
use tinykvcache.Net.SubReactor.Loop.Requests.{control-Inv}

module _ (o : NetworkOptions) (build_stats : InnerStats → ServerMetrics → Bytes) where
  ReplyKept : Bool → Option (Session × Option ℕ) → Type 0
  ReplyKept runs none = Unit {0}
  ReplyKept runs (some (s, asked)) = Kept o runs s.conn

  reply_kept :
      (runs : Bool) (reply : Option (Session × Option ℕ))
      → ReplyBounded o build_stats reply
      → (runs ≡ false → ReplyClosing o build_stats reply)
      → ReplyKept runs reply
  unfolding ReplyKept ReplyBounded ReplyClosing
  reply_kept runs none b c = tt
  reply_kept runs (some (s, asked)) b c = record { bounded = b; closing = c }

  ready-ReplyKept :
      (runs : Bool) (e : Ready) (s : Session)
      → Kept o runs s.conn
      → ReplyKept runs (handle_ready o build_stats runs e.events e.clock e.received e.sent s)
  ready-ReplyKept true e s k =
      reply_kept true _
        (handle_ready-IsBounded o build_stats true e.events e.clock e.received e.sent s k.bounded)
        (λ h. absurd (ground arith))
  ready-ReplyKept false e s k =
      reply_kept false _
        (handle_ready-IsBounded o build_stats false e.events e.clock e.received e.sent s k.bounded)
        (λ h.
          handle_ready-ReplyClosing o build_stats e.events e.clock e.received e.sent s
            (k.closing refl))

  OptionInv : Option SubReactor → Type 0
  OptionInv none = Unit {0}
  OptionInv (some r) = Inv o r

  written-OptionInv :
      (e : Ready) (r : SubReactor) (reply : Option (Session × Option ℕ))
      → is_stopped_state r.state ≡ false
      → ReplyKept (is_running r.state) reply
      → Inv o r
      → OptionInv (written o build_stats e r reply)
  unfolding written ReplyKept OptionInv
  written-OptionInv e r none s k h = tt
  written-OptionInv e r (some (t, asked)) s k h =
      elim (Bool-cases (modify_refused e.modifies asked)) [
        | inl refused ↦ rw refused tt
        | inr taken ↦ rw taken (
            same_control-Inv o r _ refl
              (put-AllClients (Kept o (is_running r.state)) e.fd t.conn r.clients k h.kept)
              (λ stops. absurd (ground arith)) h)
      ]

  found-OptionInv :
      (e : Ready) (r : SubReactor) (old : Option Connection)
      → find e.fd r.clients ≡ old
      → is_stopped_state r.state ≡ false
      → Inv o r
      → OptionInv (handle_found o build_stats e r old)
  unfolding handle_found OptionInv
  found-OptionInv e r none f s h = h
  found-OptionInv e r (some conn) f s h =
      written-OptionInv e r _ s
        (ready-ReplyKept (is_running r.state) e
          (record { conn = conn; metrics = r.metrics; store = r.store })
          (find-AllClients (Kept o (is_running r.state)) e.fd r.clients conn h.kept f))
        h

  event-Inv :
      (e : Ready) (r t : SubReactor)
      → is_stopped_state r.state ≡ false
      → handle_event o build_stats e r ≡ some t
      → Inv o r
      → Inv o t
  unfolding handle_event OptionInv
  event-Inv e r t s k h = subst OptionInv k (found-OptionInv e r (find e.fd r.clients) refl s h)

  pub Step-Inv : {r t : SubReactor} → Step o build_stats r t → Inv o r → Inv o t
  Step-Inv (enqued fd) h = enque-Inv o fd _ h
  Step-Inv (stop_asked deadline) h = stop-Inv o deadline _ h
  Step-Inv force_asked h = force_stop-Inv o _ h
  Step-Inv (controlled adds s) h = control-Inv o adds _ s h
  Step-Inv (handled e s k) h = event-Inv e _ _ s k h
  Step-Inv (cleaned s) h = cleanup-Inv o _ h
  Step-Inv (progressed now s) h = progress-Inv o now _ h
  Step-Inv {r = r} (threw metrics store s) h = fail-Inv o metrics store r
  Step-Inv {r = r} (shared metrics store) h = same_control-Inv o r _ refl h.kept h.empty h

  start-Inv : (metrics : ServerMetrics) (store : KvStore) → Inv o (start metrics store)
  unfolding start
  start-Inv metrics store = record {
    published = refl;
    kept = none-AllClients _;
    empty = λ h. refl;
    asked = λ h. absurd (ground arith);
    failed_stopped = λ h. absurd (ground arith);
  }

  -- In every state that a reactor reaches after its start, whatever the clients send, the other
  -- threads ask for and the loop does, in any order: the published state is the reactor's own; each
  -- client's write buffer is valid and within the hard limit; once the reactor no longer runs each
  -- client is closed or to be closed; a stopped reactor has no client; a reactor that no longer runs
  -- has been told to stop or has failed; and one that has failed is stopped.
  pub Reach-Inv :
      (metrics : ServerMetrics) (store : KvStore) (r : SubReactor)
      → Reach o build_stats (start metrics store) r
      → Inv o r
  Reach-Inv metrics store _ here = start-Inv metrics store
  Reach-Inv metrics store r (later {t = t} p step) = Step-Inv step (Reach-Inv metrics store t p)
