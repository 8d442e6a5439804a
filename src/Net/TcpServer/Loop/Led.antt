-- ===== src/Net/TcpServer/Loop/Led.antt =====
-- src/net/tcp_server.cpp: the acceptor and what it keeps of its reactors.
use tinykvcache.Prelude.{
  ℕ, zero, suc, ◌+◌, ◌≡◌, refl, subst, Bool, true, false, not, ◌&&◌, List, [], ◌∷◌, Option, none,
  some, inl, inr, Bool-cases, arith, map, leb,
}
use tinykvcache.Core.FrameCodec.{Bytes}
use tinykvcache.Core.KvStore.{InnerStats}
use tinykvcache.Net.Connection.{NetworkOptions}
use tinykvcache.Net.SubReactor.{
  SubReactor, is_running, is_draining, is_stopped_state, is_stopped, stop,
}
use tinykvcache.Net.SubReactor.Loop.{Step, enqued, stop_asked, force_asked}
use tinykvcache.Net.SubReactor.Loop.Operations.{Inv}
use tinykvcache.Net.SubReactor.Loop.Reached.{Step-Inv}
use tinykvcache.Net.SubReactor.Loop.Onward.{Step-Onward, Step-stopped, stop_told}
use tinykvcache.Net.TcpServer.{
  TcpServer, Accepted, client, unusable, interrupted, would_block, failed, begin_graceful_shutdown,
  check_shutdown_progress, accept_loop, assign, enque_at, all_stopped, force_running,
}
use tinykvcache.Net.TcpServer.Loop.{Moves, first, behind}
use tinykvcache.Observability.ServerMetrics.{ServerMetrics}

-- A reactor that is in order, and has been told to stop where the server no longer runs.
pub record IsLed (o : NetworkOptions) (runs : Bool) (r : SubReactor) : Type 0 where
  pub inv : Inv o r
  pub told : runs ≡ false → r.stop_requested ≡ true

unfoldable pub AllLed : NetworkOptions → Bool → List SubReactor → Type 0
AllLed o runs [] = Unit {0}
AllLed o runs (r ∷ rs) = IsLed o runs r × AllLed o runs rs

pub record ServerInv (o : NetworkOptions) (s : TcpServer) : Type 0 where
  pub led : AllLed o (is_running s.state) s.sub_reactors
  pub deaf : is_running s.state ≡ false → s.listening ≡ false
  pub ended : is_stopped_state s.state ≡ true → all_stopped s.sub_reactors ≡ true

module _ (o : NetworkOptions) (build_stats : InnerStats → ServerMetrics → Bytes) where
  Step-IsLed :
      (runs : Bool) {r t : SubReactor} → Step o build_stats r t → IsLed o runs r → IsLed o runs t
  Step-IsLed runs step h = record {
    inv = Step-Inv o build_stats step h.inv;
    told = λ k. (Step-Onward o build_stats step).stop_kept (h.told k);
  }

  Moves-AllLed :
      (runs : Bool) {rs ts : List SubReactor}
      → Moves o build_stats rs ts
      → AllLed o runs rs
      → AllLed o runs ts
  unfolding AllLed
  Moves-AllLed runs (first step) (h, hs) = (Step-IsLed runs step h, hs)
  Moves-AllLed runs (behind moves) (h, hs) = (h, Moves-AllLed runs moves hs)

  Moves-stopped :
      (runs : Bool) {rs ts : List SubReactor}
      → Moves o build_stats rs ts
      → AllLed o runs rs
      → all_stopped rs ≡ true
      → all_stopped ts ≡ true
  unfolding all_stopped AllLed
  Moves-stopped runs (first {r = r} {t = t} {rs = rs} step) (h, hs) s =
      let k : is_stopped t ≡ true = Step-stopped o build_stats step h.inv (ground arith) in
      ground arith
  Moves-stopped runs (behind {r = r} {rs = rs} {ts = ts} moves) (h, hs) s =
      let k : all_stopped ts ≡ true = Moves-stopped runs moves hs (ground arith) in ground arith

  pub Moves-ServerInv :
      (s : TcpServer) (rs : List SubReactor)
      → Moves o build_stats s.sub_reactors rs
      → ServerInv o s
      → ServerInv o (record s { sub_reactors = rs })
  Moves-ServerInv s rs moves h = record {
    led = Moves-AllLed (is_running s.state) moves h.led;
    deaf = h.deaf;
    ended = λ k. Moves-stopped (is_running s.state) moves h.led (h.ended k);
  }

  stop-AllLed :
      (runs now_runs : Bool) (deadline : ℕ) (rs : List SubReactor)
      → AllLed o runs rs
      → AllLed o now_runs (map (stop deadline) rs)
  unfolding AllLed
  stop-AllLed runs now_runs deadline [] h = tt
  stop-AllLed runs now_runs deadline (r ∷ rs) (h, hs) = (
    record {
      inv = Step-Inv o build_stats (stop_asked deadline) h.inv;
      told = λ k. stop_told deadline r;
    },
    stop-AllLed runs now_runs deadline rs hs,
  )

  pub begin-ServerInv :
      (graceful_timeout now : ℕ) (s : TcpServer)
      → ServerInv o s
      → ServerInv o (begin_graceful_shutdown graceful_timeout now s)
  unfolding begin_graceful_shutdown
  begin-ServerInv graceful_timeout now s h = elim (Bool-cases (is_running s.state)) [
    | inr stays ↦ rw stays h
    | inl runs ↦ rw runs (record {
      led = stop-AllLed (is_running s.state) false (now + graceful_timeout) s.sub_reactors h.led;
      deaf = λ k. refl;
      ended = λ k. absurd (ground arith);
    })
  ]

  accept_enque :
      (index fd : ℕ) (runs : Bool) (rs : List SubReactor)
      → AllLed o runs rs
      → AllLed o runs (enque_at index fd rs).0
  unfolding enque_at AllLed
  accept_enque index fd runs [] h = tt
  accept_enque zero fd runs (r ∷ rs) (h, hs) = (Step-IsLed runs (enqued fd) h, hs)
  accept_enque (suc index) fd runs (r ∷ rs) (h, hs) = (h, accept_enque index fd runs rs hs)

  pub assign-ServerInv :
      (fd : ℕ) (s : TcpServer)
      → is_running s.state ≡ true
      → ServerInv o s
      → ServerInv o (assign fd s)
  unfolding assign
  assign-ServerInv fd s runs h = record {
    led = accept_enque s.next_sub_reactor_index fd (is_running s.state) s.sub_reactors h.led;
    deaf = h.deaf;
    ended = λ k. absurd (ground arith);
  }

  unfoldable pub OptionInv : Option TcpServer → Type 0
  OptionInv none = Unit {0}
  OptionInv (some s) = ServerInv o s

  pub accept_loop-OptionInv :
      (left : ℕ) (results : List Accepted) (s : TcpServer)
      → is_running s.state ≡ true
      → ServerInv o s
      → OptionInv (accept_loop left results s)
  unfolding accept_loop OptionInv
  accept_loop-OptionInv zero results s runs h = h
  accept_loop-OptionInv (suc left) [] s runs h = h
  accept_loop-OptionInv (suc left) (interrupted ∷ results) s runs h =
      accept_loop-OptionInv (suc left) results s runs h
  accept_loop-OptionInv (suc left) (would_block ∷ results) s runs h = h
  accept_loop-OptionInv (suc left) (failed ∷ results) s runs h = tt
  accept_loop-OptionInv (suc left) (unusable fd ∷ results) s runs h =
      accept_loop-OptionInv left results s runs h
  accept_loop-OptionInv (suc left) (client fd ∷ results) s runs h =
      accept_loop-OptionInv left results (assign fd s) (unfold assign in runs)
        (assign-ServerInv fd s runs h)

  force-AllLed :
      (runs : Bool) (rs : List SubReactor) → AllLed o runs rs → AllLed o runs (map force_running rs)
  unfolding AllLed force_running
  force-AllLed runs [] h = tt
  force-AllLed runs (r ∷ rs) (h, hs) = elim (Bool-cases (is_stopped r)) [
    | inl s ↦ rw s (h, force-AllLed runs rs hs)
    | inr s ↦ rw s (Step-IsLed runs force_asked h, force-AllLed runs rs hs)
  ]

  pub progress-ServerInv :
      (now : ℕ) (s : TcpServer) → ServerInv o s → ServerInv o (check_shutdown_progress now s)
  unfolding check_shutdown_progress
  progress-ServerInv now s h = elim (Bool-cases (is_draining s.state)) [
    | inr stays ↦ rw stays h
    | inl drains ↦
        let stays : is_running s.state ≡ false = ground arith in
        let led : AllLed o false s.sub_reactors =
          subst (λ (b : Bool). AllLed o b s.sub_reactors) stays h.led in
        elim (Bool-cases (all_stopped s.sub_reactors)) [
          | inl all ↦
              rw (drains, all) (record { led = led; deaf = λ k. h.deaf stays; ended = λ k. all })
          | inr some_run ↦
              elim (Bool-cases (not s.force_stop_sent && leb s.shutdown_deadline now)) [
                | inl past ↦
                    rw (drains, some_run, past)
                      (record {
                        led = force-AllLed (is_running s.state) s.sub_reactors h.led;
                        deaf = h.deaf;
                        ended = λ k. absurd (ground arith);
                      })
                | inr early ↦ rw (drains, some_run, early) h
              ]
        ]
  ]
