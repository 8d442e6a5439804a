-- ===== src/Observability/ServerMetrics/Balance.antt =====
-- What the counters of src/observability/server_metrics.cpp keep between them.
use tinykvcache.Prelude.{
  ℕ, zero, suc, ◌+◌, ◌%◌, ◌^◌, ◌≤◌, ◌<◌, ◌≡◌, refl, List, [], ◌∷◌, arith, length,
}
use tinykvcache.Prelude.Int.{ℤ}
use tinykvcache.Prelude.Words.{inc64, dec64}
use tinykvcache.Observability.ServerMetrics.{
  ServerMetrics, init, on_connection_accepted, on_connection_closed, add_bytes_received,
  add_bytes_sent, add_frames_received, on_command_processed, on_command_error, on_protocol_error,
  on_slow_client_disconnected, on_read_paused, on_read_resumed, on_sweeper_run,
  add_forced_shutdown_connections, observe_pending_write_bytes, bucket_index, inc_at,
  record_latency, record_command_latency, not_negative, latency_upper_bounds_ns,
}

abbrev pub sum : List ℕ → ℕ
sum [] = 0
sum (n ∷ ns) = n + sum ns

-- Up to wrap-around: a connection is open or closed, and a command stands in one bucket.
pub record IsBalanced (m : ServerMetrics) : Type 0 where
  pub connections :
      (m.active_connections + m.closed_connections) % 2 ^ 64 ≡ m.accepted_connections % 2 ^ 64
  pub buckets : sum m.command_latency_buckets % 2 ^ 64 ≡ m.command_latency_count % 2 ^ 64
  pub seven : length m.command_latency_buckets ≡ 7

pub init-IsBalanced : IsBalanced init
init-IsBalanced = record { connections = refl; buckets = refl; seven = refl }

-- Every update that a reactor makes.
pub data Update : Type 0 where
  accepted closed command_processed command_error protocol_error slow_client paused resumed : Update
  received sent frames swept forced pending : ℕ → Update
  latency : ℤ → Update

pub apply : Update → ServerMetrics → ServerMetrics
apply accepted m = on_connection_accepted m
apply closed m = on_connection_closed m
apply command_processed m = on_command_processed m
apply command_error m = on_command_error m
apply protocol_error m = on_protocol_error m
apply slow_client m = on_slow_client_disconnected m
apply paused m = on_read_paused m
apply resumed m = on_read_resumed m
apply (received n) m = add_bytes_received n m
apply (sent n) m = add_bytes_sent n m
apply (frames n) m = add_frames_received n m
apply (swept n) m = on_sweeper_run n m
apply (forced n) m = add_forced_shutdown_connections n m
apply (pending n) m = observe_pending_write_bytes n m
apply (latency n) m = record_command_latency n m

bucket_index-le : (bounds : List ℕ) (n : ℕ) → bucket_index bounds n ≤ length bounds
unfolding bucket_index
bucket_index-le [] n = omega arith
bucket_index-le (b ∷ bounds) n = ground (arith, bucket_index-le bounds n)

length-inc_at : (ns : List ℕ) (i : ℕ) → length (inc_at ns i) ≡ length ns
unfolding inc_at
length-inc_at [] i = refl
length-inc_at (n ∷ ns) zero = refl
length-inc_at (n ∷ ns) (suc i) = omega (arith, length-inc_at ns i)

sum-inc_at :
    (ns : List ℕ) (i : ℕ) → i < length ns → sum (inc_at ns i) % 2 ^ 64 ≡ (sum ns + 1) % 2 ^ 64
unfolding inc_at
sum-inc_at [] i h = absurd (omega arith)
sum-inc_at (n ∷ ns) zero h = omega arith
sum-inc_at (n ∷ ns) (suc i) h = omega (arith, sum-inc_at ns i (omega arith))

record_latency-IsBalanced :
    (ns : ℕ) (m : ServerMetrics) → IsBalanced m → IsBalanced (record_latency ns m)
unfolding record_latency
record_latency-IsBalanced ns m v =
    let i = bucket_index latency_upper_bounds_ns ns in
    record {
      connections = v.connections;
      buckets = omega (
        arith,
        v.buckets,
        sum-inc_at m.command_latency_buckets i
            (omega (arith, v.seven, bucket_index-le latency_upper_bounds_ns ns)),
      );
      seven = omega (arith, v.seven, length-inc_at m.command_latency_buckets i);
    }

apply-IsBalanced : (u : Update) (m : ServerMetrics) → IsBalanced m → IsBalanced (apply u m)
unfolding apply on_connection_accepted on_connection_closed add_bytes_received add_bytes_sent
    add_frames_received on_command_processed on_command_error on_protocol_error
    on_slow_client_disconnected on_read_paused on_read_resumed on_sweeper_run
    add_forced_shutdown_connections observe_pending_write_bytes record_command_latency
apply-IsBalanced (latency n) m v = record_latency-IsBalanced (not_negative n) m v
apply-IsBalanced accepted m v = record {
  connections = omega (arith, v.connections);
  buckets = v.buckets;
  seven = v.seven;
}
apply-IsBalanced closed m v = record {
  connections = omega (arith, v.connections);
  buckets = v.buckets;
  seven = v.seven;
}
apply-IsBalanced _ m v = record {
  connections = v.connections;
  buckets = v.buckets;
  seven = v.seven;
}

pub apply_all : List Update → ServerMetrics → ServerMetrics
unfolding apply
apply_all [] m = m
apply_all (u ∷ us) m = apply_all us (apply u m)

apply_all-IsBalanced_from :
    (us : List Update) (m : ServerMetrics) → IsBalanced m → IsBalanced (apply_all us m)
unfolding apply_all
apply_all-IsBalanced_from [] m v = v
apply_all-IsBalanced_from (u ∷ us) m v =
    apply_all-IsBalanced_from us (apply u m) (apply-IsBalanced u m v)

-- In whatever order the threads' updates come: up to wrap-around, the active and the closed
-- connections make the accepted ones, and the seven buckets make the number of latencies.
pub apply_all-IsBalanced : (us : List Update) → IsBalanced (apply_all us init)
apply_all-IsBalanced us = apply_all-IsBalanced_from us init init-IsBalanced

-- What the updates do to the number of active connections.
pub active-on_connection_closed :
    (m : ServerMetrics) → (on_connection_closed m).active_connections ≡ dec64 m.active_connections
unfolding on_connection_closed
active-on_connection_closed m = refl

pub active-on_connection_accepted :
    (m : ServerMetrics) → (on_connection_accepted m).active_connections ≡ inc64 m.active_connections
unfolding on_connection_accepted
active-on_connection_accepted m = refl

pub active-add_forced_shutdown_connections :
    (n : ℕ) (m : ServerMetrics)
    → (add_forced_shutdown_connections n m).active_connections ≡ m.active_connections
unfolding add_forced_shutdown_connections
active-add_forced_shutdown_connections n m = refl

pub active-on_read_paused :
    (m : ServerMetrics) → (on_read_paused m).active_connections ≡ m.active_connections
unfolding on_read_paused
active-on_read_paused m = refl

pub active-on_read_resumed :
    (m : ServerMetrics) → (on_read_resumed m).active_connections ≡ m.active_connections
unfolding on_read_resumed
active-on_read_resumed m = refl
