-- ===== src/Net/TcpServer/Tests.antt =====
-- Runs of the loop and of the sweeper of src/net/tcp_server.cpp.
use tinykvcache.Prelude.{
  ℕ, suc, ◌+◌, ◌*◌, length, ◌≡◌, refl, true, false, List, [], ◌∷◌, some, arith,
}
use tinykvcache.Prelude.Int.{pos}
use tinykvcache.Core.FrameCodec.{Bytes}
use tinykvcache.Core.KvStore.{InnerStats, KvStore}
use tinykvcache.Core.KvStore as Store
use tinykvcache.Core.KvStore.Trace as Trace
use tinykvcache.Core.KvStore.Trace.{Call, sets, expires, run-Inv, length-run}
use tinykvcache.Net.Connection.{default_options}
use tinykvcache.Net.SubReactor.{SubReactor, start}
use tinykvcache.Net.SubReactor.Loop.{here}
use tinykvcache.Net.SubReactor.Loop.Reached.{Reach-Inv}
use tinykvcache.Net.TcpServer.{
  TcpServer, begin_graceful_shutdown, check_sub_reactor_health, check_shutdown_progress,
}
use tinykvcache.Net.TcpServer.Loop.{
  Found, run_round, accept_ready, progress, run_started, round, at_start, later_on,
}
use tinykvcache.Net.TcpServer.Loop.Led.{AllLed, ServerInv}
use tinykvcache.Net.TcpServer.Loop.Reached.{ServerReach-ServerInv}
use tinykvcache.Net.TcpServer.Sweeper.{start_sweeper_thread, already_running, sweep_rounds}
use tinykvcache.Net.TcpServer.Sweeper.Ends.{IsSound, HasEnded, sweep_rounds-HasEnded}
use tinykvcache.Observability.ServerMetrics.{ServerMetrics}
use tinykvcache.Observability.ServerMetrics as Metrics

abbrev no_stats : InnerStats → ServerMetrics → Bytes
no_stats stats metrics = []

abbrev reactors : List SubReactor
reactors = start Metrics.init Store.init ∷ []

reactors-AllLed : AllLed default_options true reactors
unfolding AllLed
reactors-AllLed = (
  record {
    inv =
        Reach-Inv default_options no_stats Metrics.init Store.init (start Metrics.init Store.init)
          here;
    told = λ h. absurd (ground arith);
  },
  tt,
)

-- A round that finds the server asked to stop.
abbrev found_stop : Found
found_stop = record {
  stop_event = true;
  listen_ready = true;
  accepts = [];
  stop_time = 5;
  health_time = 6;
  check_time = 7;
}

abbrev told : TcpServer
told =
    check_shutdown_progress 7
      (check_sub_reactor_health 100 6 (begin_graceful_shutdown 100 5 (run_started reactors)))

told_round : run_round default_options 100 found_stop (run_started reactors) ≡ some told
unfolding run_round accept_ready progress run_started begin_graceful_shutdown
    check_sub_reactor_health
told_round = refl

ServerReach-ServerInv_example : ServerInv default_options told
unfolding run_started
ServerReach-ServerInv_example =
    ServerReach-ServerInv default_options no_stats 100 reactors told reactors-AllLed
      (later_on at_start (round found_stop refl told_round))

abbrev key : Bytes
key = b'a' ∷ []

-- A store with a key whose deadline is three seconds later.
abbrev store_calls : List (ℕ × Call)
store_calls = (1, sets key key) ∷ (2, expires key (pos 3)) ∷ []

abbrev store : KvStore
store = Trace.run Store.init store_calls

store-IsSound : IsSound store
store-IsSound = record {
  inv = run-Inv store_calls (omega arith);
  room = omega (arith, length-run Store.init store_calls);
}

-- The sweeper wakes after the deadline.
abbrev late : ℕ → ℕ
late i = 4 * Store.second + i

sweep_rounds-HasEnded_example :
    HasEnded late
      (λ i. false)
      0
      store
      Metrics.init
      (sweep_rounds (suc (length store.expirations)) late (λ i. false) 0 store Metrics.init)
sweep_rounds-HasEnded_example =
    sweep_rounds-HasEnded late (λ i. false) (suc (length store.expirations)) 0 store Metrics.init
      store-IsSound (omega arith)

second_start : start_sweeper_thread (pos 5000) true true ≡ (true, already_running)
unfolding start_sweeper_thread
second_start = refl
