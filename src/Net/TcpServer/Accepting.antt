-- ===== src/Net/TcpServer/Accepting.antt =====
-- src/net/tcp_server.cpp: the clients that are accepted, and the reactors that they go to.
use tinykvcache.Prelude.{
  ℕ, zero, suc, ◌+◌, ◌%◌, ◌<◌, ◌≡◌, ◌∙◌, refl, sym, subst, ap, false, List, [], ◌∷◌, Option, none,
  some, arith, length, append-nil, append_assoc, ◌++◌, ◌==◌, ◌≤◌, if◌then◌else◌, Bool-cases, inl,
  inr,
}
use tinykvcache.Net.SubReactor.{SubReactor}
use tinykvcache.Net.SubReactor.Shutdown.{enque_client_open}
use tinykvcache.Net.TcpServer.{
  TcpServer, Accepted, client, unusable, interrupted, would_block, failed, enque_at, assign,
  accept_loop, accept_new_clients,
}
use tinykvcache.Net.Connection.{NetworkOptions}
use native.Mathlib.Nat.{mod-eq_of_lt, mod-add-mod, mod-mod}

-- The clients that wait to be taken over by reactor `j`.
pub pending_at : ℕ → List SubReactor → List ℕ
pending_at j [] = []
pending_at zero (r ∷ rs) = r.pending_clients
pending_at (suc j) (r ∷ rs) = pending_at j rs

-- What reactor `j` of `n` gets, where descriptors are dealt out in turn and the first goes to
-- reactor `turn % n`.
unfoldable pub share : ℕ → ℕ → ℕ → List ℕ → List ℕ
share n j turn [] = []
share n j turn (fd ∷ fds) =
    let rest = share n j (turn + 1) fds in if (turn % n) == j then fd ∷ rest else rest

-- No reactor has been asked to stop.
unfoldable pub AllOpen : List SubReactor → Type 0
AllOpen [] = Unit {0}
AllOpen (r ∷ rs) = (r.stop_requested ≡ false) × (r.force_stop_requested ≡ false) × AllOpen rs

-- The descriptors that one round takes: those before the queue is empty and the limit is reached.
unfoldable pub taken : ℕ → List Accepted → List ℕ
taken zero results = []
taken (suc left) [] = []
taken (suc left) (interrupted ∷ results) = taken (suc left) results
taken (suc left) (would_block ∷ results) = []
taken (suc left) (failed ∷ results) = []
taken (suc left) (unusable fd ∷ results) = taken left results
taken (suc left) (client fd ∷ results) = fd ∷ taken left results

length-taken : (left : ℕ) (results : List Accepted) → length (taken left results) ≤ left
unfolding taken
length-taken zero results = omega arith
length-taken (suc left) [] = omega arith
length-taken (suc left) (interrupted ∷ results) = length-taken (suc left) results
length-taken (suc left) (would_block ∷ results) = omega arith
length-taken (suc left) (failed ∷ results) = omega arith
length-taken (suc left) (unusable fd ∷ results) = omega (arith, length-taken left results)
length-taken (suc left) (client fd ∷ results) = omega (arith, length-taken left results)

-- Only the turn's place among the reactors matters.
share-mod : (n j a b : ℕ) (fds : List ℕ) → a % n ≡ b % n → share n j a fds ≡ share n j b fds
unfolding share
share-mod n j a b [] h = refl
share-mod n j a b (fd ∷ fds) h =
    rw
      (
        h,
        share-mod n j (a + 1) (b + 1) fds
            (sym (mod-add-mod a n 1) ∙ ap (λ x. (x + 1) % n) h ∙ mod-add-mod b n 1),
      )
      refl

length-enque_at : (i fd : ℕ) (rs : List SubReactor) → length (enque_at i fd rs).0 ≡ length rs
unfolding enque_at
length-enque_at i fd [] = refl
length-enque_at zero fd (r ∷ rs) = refl
length-enque_at (suc i) fd (r ∷ rs) = ap suc (length-enque_at i fd rs)

enque_at-AllOpen : (i fd : ℕ) (rs : List SubReactor) → AllOpen rs → AllOpen (enque_at i fd rs).0
unfolding enque_at AllOpen
enque_at-AllOpen i fd [] o = tt
enque_at-AllOpen zero fd (r ∷ rs) (s, f, o) = rw (enque_client_open fd r s f) (s, f, o)
enque_at-AllOpen (suc i) fd (r ∷ rs) (s, f, o) = (s, f, enque_at-AllOpen i fd rs o)

pending_at-enque_at :
    (i fd j : ℕ) (rs : List SubReactor)
    → i < length rs
    → AllOpen rs
    → pending_at j (enque_at i fd rs).0 ≡ pending_at j rs ++ (if i == j then fd ∷ [] else [])
unfolding enque_at pending_at AllOpen
pending_at-enque_at i fd j [] h o = absurd (omega arith)
pending_at-enque_at zero fd zero (r ∷ rs) h (s, f, o) = rw (enque_client_open fd r s f) refl
pending_at-enque_at zero fd (suc j) (r ∷ rs) h (s, f, o) =
    ground (arith, append-nil (pending_at j rs))
pending_at-enque_at (suc i) fd zero (r ∷ rs) h (s, f, o) =
    ground (arith, append-nil r.pending_clients)
pending_at-enque_at (suc i) fd (suc j) (r ∷ rs) h (s, f, o) =
    ground (arith, pending_at-enque_at i fd j rs (omega arith) o)

-- What holds of the server between two calls of `accept`.
pub record IsReady (s : TcpServer) : Type 0 where
  pub all_open : AllOpen s.sub_reactors
  pub in_range : s.next_sub_reactor_index < length s.sub_reactors

assign-IsReady : (fd : ℕ) (s : TcpServer) → IsReady s → IsReady (assign fd s)
unfolding assign
assign-IsReady fd s r = record {
  all_open = enque_at-AllOpen s.next_sub_reactor_index fd s.sub_reactors r.all_open;
  in_range = omega (arith, r.in_range, length-enque_at s.next_sub_reactor_index fd s.sub_reactors);
}

-- The state after a round that has taken `fds`: they have been dealt out in turn, from the index
-- on, each behind the clients that wait at its reactor, and the index has moved round by their number.
pub record Took (fds : List ℕ) (s t : TcpServer) : Type 0 where
  pub ready : IsReady t
  pub count : length t.sub_reactors ≡ length s.sub_reactors
  pub pending :
      (j : ℕ)
      → pending_at j t.sub_reactors
        ≡ pending_at j s.sub_reactors
          ++ share (length s.sub_reactors) j s.next_sub_reactor_index fds
  pub next :
      t.next_sub_reactor_index ≡ (s.next_sub_reactor_index + length fds) % length s.sub_reactors

Took-nothing : (s : TcpServer) → IsReady s → Took [] s s
unfolding share
Took-nothing s r = record {
  ready = r;
  count = refl;
  pending = λ j. sym (append-nil (pending_at j s.sub_reactors));
  next = sym (ap (λ m. m % length s.sub_reactors) (omega arith) ∙ mod-eq_of_lt r.in_range);
}

-- The first descriptor goes to the reactor of the index, and the others follow.
share-first :
    (n i j fd : ℕ) (fds : List ℕ)
    → i < n
    → (if i == j then fd ∷ [] else []) ++ share n j ((i + 1) % n) fds ≡ share n j i (fd ∷ fds)
unfolding share
share-first n i j fd fds h =
    rw (mod-eq_of_lt h, share-mod n j ((i + 1) % n) (i + 1) fds (mod-mod (i + 1) n))
      (elim (Bool-cases (i == j)) [ inl e ↦ rw e refl | inr e ↦ rw e refl ])

Took-more :
    (fd : ℕ) (fds : List ℕ) (s t : TcpServer)
    → IsReady s
    → Took fds (assign fd s) t
    → Took (fd ∷ fds) s t
unfolding assign
Took-more fd fds s t r k =
    let same = length-enque_at s.next_sub_reactor_index fd s.sub_reactors in
    record {
      ready = k.ready;
      count = k.count ∙ same;
      pending = λ j.
          k.pending j
          ∙ rw
              (
                same,
                pending_at-enque_at s.next_sub_reactor_index fd j s.sub_reactors r.in_range
                    r.all_open,
              )
              (append_assoc (pending_at j s.sub_reactors) _ _
                ∙ ap (λ x. pending_at j s.sub_reactors ++ x)
                    (share-first (length s.sub_reactors) s.next_sub_reactor_index j fd fds
                      r.in_range));
      next =
          k.next
          ∙ rw
              (
                same,
                mod-add-mod (s.next_sub_reactor_index + 1) (length s.sub_reactors) (length fds),
              )
              (ap (λ m. m % length s.sub_reactors) (omega arith));
    }

-- Unless `accept` fails.
AfterRound : List ℕ → TcpServer → Option TcpServer → Type 0
AfterRound fds s none = Unit {0}
AfterRound fds s (some t) = Took fds s t

more-AfterRound :
    (fd : ℕ) (fds : List ℕ) (s : TcpServer) (r : Option TcpServer)
    → IsReady s
    → AfterRound fds (assign fd s) r
    → AfterRound (fd ∷ fds) s r
unfolding AfterRound
more-AfterRound fd fds s none k a = tt
more-AfterRound fd fds s (some t) k a = Took-more fd fds s t k a

accept_loop-AfterRound :
    (left : ℕ) (results : List Accepted) (s : TcpServer)
    → IsReady s
    → AfterRound (taken left results) s (accept_loop left results s)
unfolding accept_loop taken AfterRound
accept_loop-AfterRound zero results s r = Took-nothing s r
accept_loop-AfterRound (suc left) [] s r = Took-nothing s r
accept_loop-AfterRound (suc left) (interrupted ∷ results) s r =
    accept_loop-AfterRound (suc left) results s r
accept_loop-AfterRound (suc left) (would_block ∷ results) s r = Took-nothing s r
accept_loop-AfterRound (suc left) (failed ∷ results) s r = tt
accept_loop-AfterRound (suc left) (unusable fd ∷ results) s r =
    accept_loop-AfterRound left results s r
accept_loop-AfterRound (suc left) (client fd ∷ results) s r =
    more-AfterRound fd (taken left results) s (accept_loop left results (assign fd s)) r
      (accept_loop-AfterRound left results (assign fd s) (assign-IsReady fd s r))

-- A round of accepts that does not fail, on reactors none of which has been asked to stop: the
-- descriptors that it takes are at most the limit; they are dealt out in turn, the first to the
-- reactor of the index, each of them behind those that wait at its reactor; and the index has
-- moved round by their number.
pub accept_new_clients-Took :
    (o : NetworkOptions) (results : List Accepted) (s t : TcpServer)
    → IsReady s
    → accept_new_clients o results s ≡ some t
    → (length (taken o.max_accepts_per_event results) ≤ o.max_accepts_per_event)
      × Took (taken o.max_accepts_per_event results) s t
unfolding accept_new_clients AfterRound
accept_new_clients-Took o results s t r h = (
  length-taken o.max_accepts_per_event results,
  subst (AfterRound (taken o.max_accepts_per_event results) s) h
      (accept_loop-AfterRound o.max_accepts_per_event results s r),
)
