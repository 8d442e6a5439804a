-- ===== src/Net/SubReactor/Loop/Tests.antt =====
-- Runs of the loop of src/net/sub_reactor.cpp.
use tinykvcache.Prelude.{ℕ, ◌≡◌, ◌≢◌, refl, Bool, true, List, [], ◌∷◌, none, some}
use tinykvcache.Prelude.Map.{find, put}
use tinykvcache.Prelude.Int.{pos}
use tinykvcache.Core.FrameCodec.{Bytes}
use tinykvcache.Core.KvStore.{KvStore, InnerStats}
use tinykvcache.Core.KvStore as Store
use tinykvcache.Net.Connection.{default_options, new_connection}
use tinykvcache.Net.ClientEvents.{recv_would_block, send_would_block}
use tinykvcache.Net.ClientEvents.Returns.{IsAllowed}
use tinykvcache.Net.SubReactor.{
  SubReactor, start, enque_client, process_control_requests, cleanup_closed_connections,
  check_shutdown_progress, stop, add_clients, add_client_in_loop, add_new, control_throws,
}
use tinykvcache.Net.SubReactor.Loop.{
  Ready, enqued, stop_asked, controlled, Reach, here, later, round, serve_clients, settle,
  handle_events, handle_control, and_rest,
}
use tinykvcache.Net.SubReactor.Loop.Operations.{Inv}
use tinykvcache.Net.SubReactor.Loop.Reached.{Reach-Inv}
use tinykvcache.Net.SubReactor.Loop.Settled.{Settled, round-Settled}
use tinykvcache.Net.SubReactor.Loop.Onward.{Onward, Reach-Onward}
use tinykvcache.Net.SubReactor.Loop.Total.{round_total}
use tinykvcache.Observability.ServerMetrics.{ServerMetrics}
use tinykvcache.Observability.ServerMetrics as Metrics

abbrev no_stats : InnerStats → ServerMetrics → Bytes
no_stats stats metrics = []

-- A client waits for the reactor's thread.
abbrev waiting : SubReactor
waiting = (enque_client 7 (start Metrics.init Store.init)).0

abbrev takes : ℕ → Bool
takes fd = true

abbrev accepted : SubReactor
accepted = process_control_requests default_options takes waiting

-- What the reactor has been told, and has done, by the time it stops.
abbrev asked : SubReactor
asked = stop 100 accepted

abbrev drained : SubReactor
drained = process_control_requests default_options takes asked

accepted-Reach : Reach default_options no_stats (start Metrics.init Store.init) accepted
unfolding start enque_client
accepted-Reach = later (later here (enqued 7)) (controlled takes refl)

asked-Reach : Reach default_options no_stats (start Metrics.init Store.init) asked
asked-Reach = later accepted-Reach (stop_asked 100)

Reach-Inv_example : Inv default_options asked
Reach-Inv_example = Reach-Inv default_options no_stats Metrics.init Store.init asked asked-Reach

Reach-Onward_example : Onward (start Metrics.init Store.init) asked
Reach-Onward_example =
    Reach-Onward default_options no_stats (start Metrics.init Store.init) asked asked-Reach

-- The client's descriptor is ready to be read, and nothing is there.
abbrev ready : List Ready
ready =
    record {
      fd = 7;
      events = 1;
      clock = λ i. record { begin = 0; elapsed = pos 0 };
      received = recv_would_block;
      sent = send_would_block;
      modifies = true;
    }
    ∷ []

-- A client that waits for the rest of its answer, and a poller that takes what it is asked.
abbrev busy : SubReactor
busy = record (start Metrics.init Store.init) {
  clients =
      (
        7,
        record (new_connection 7) {
          write_buffer = record { storage = b'x' ∷ []; read_pos = 0 };
          registered_events = 3;
        },
      )
      ∷ [];
  stop_requested = true;
}

round_total_example : round default_options no_stats takes takes 5 true ready busy ≢ none
unfolding start IsAllowed
round_total_example =
    round_total default_options no_stats takes takes 5 true ready busy (refl, tt)
      ((λ conn h. tt), refl, (λ t h. tt))

abbrev served : SubReactor
served = check_shutdown_progress 5 (cleanup_closed_connections accepted)

waiting-round : round default_options no_stats takes takes 5 true [] waiting ≡ some served
unfolding round and_rest handle_control control_throws serve_clients settle handle_events start
    enque_client process_control_requests add_clients add_client_in_loop add_new find put
waiting-round = refl

round-Settled_example : Settled true 5 waiting served
round-Settled_example =
    round-Settled default_options no_stats takes takes 5 true [] waiting served waiting-round
