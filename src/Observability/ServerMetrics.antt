-- ===== src/Observability/ServerMetrics.antt =====
-- src/observability/server_metrics.cpp: counters that every reactor thread adds to. Each update is
-- one atomic read-modify-write, so a call is a function of the counters it touches.
mod Tests
pub mod Balance
pub mod Latency
use tinykvcache.Prelude.{ℕ, zero, suc, ◌+◌, List, [], ◌∷◌, ◌++◌, length, ltb, leb, if◌then◌else◌}
use tinykvcache.Prelude.Words.{add64, inc64, dec64}
use tinykvcache.Prelude.Int.{ℤ, pos, negsuc}
use tinykvcache.Prelude.Text.{codes, to_string}
use tinykvcache.Core.FrameCodec.{Bytes}

-- The counters. A snapshot has the same fields, so it is a value of the same record.
pub record ServerMetrics : Type 0 where
  pub accepted_connections : ℕ
  pub closed_connections : ℕ
  pub active_connections : ℕ
  pub bytes_received : ℕ
  pub bytes_sent : ℕ
  pub frames_received : ℕ
  pub commands_processed : ℕ
  pub command_errors : ℕ
  pub protocol_errors : ℕ
  pub slow_client_disconnects : ℕ
  pub read_pause_transitions : ℕ
  pub read_resume_transitions : ℕ
  pub sweeper_runs : ℕ
  pub expired_keys_removed : ℕ
  pub forced_shutdown_connections : ℕ
  pub maximum_pending_write_bytes : ℕ
  pub command_latency_count : ℕ
  pub command_latency_total : ℕ
  pub command_latency_maximum : ℕ
  pub command_latency_buckets : List ℕ

abbrev pub init : ServerMetrics
init = record {
  accepted_connections = 0;
  closed_connections = 0;
  active_connections = 0;
  bytes_received = 0;
  bytes_sent = 0;
  frames_received = 0;
  commands_processed = 0;
  command_errors = 0;
  protocol_errors = 0;
  slow_client_disconnects = 0;
  read_pause_transitions = 0;
  read_resume_transitions = 0;
  sweeper_runs = 0;
  expired_keys_removed = 0;
  forced_shutdown_connections = 0;
  maximum_pending_write_bytes = 0;
  command_latency_count = 0;
  command_latency_total = 0;
  command_latency_maximum = 0;
  command_latency_buckets = 0 ∷ 0 ∷ 0 ∷ 0 ∷ 0 ∷ 0 ∷ 0 ∷ [];
}

abbrev pub latency_upper_bounds_ns : List ℕ
latency_upper_bounds_ns = 10_000 ∷ 50_000 ∷ 100_000 ∷ 500_000 ∷ 1_000_000 ∷ 5_000_000 ∷ []

pub on_connection_accepted : ServerMetrics → ServerMetrics
on_connection_accepted m = record m {
  accepted_connections = inc64 m.accepted_connections;
  active_connections = inc64 m.active_connections;
}

pub on_connection_closed : ServerMetrics → ServerMetrics
on_connection_closed m = record m {
  closed_connections = inc64 m.closed_connections;
  active_connections = dec64 m.active_connections;
}

pub add_bytes_received : ℕ → ServerMetrics → ServerMetrics
add_bytes_received n m = record m { bytes_received = add64 m.bytes_received n }

pub add_bytes_sent : ℕ → ServerMetrics → ServerMetrics
add_bytes_sent n m = record m { bytes_sent = add64 m.bytes_sent n }

pub add_frames_received : ℕ → ServerMetrics → ServerMetrics
add_frames_received n m = record m { frames_received = add64 m.frames_received n }

pub on_command_processed : ServerMetrics → ServerMetrics
on_command_processed m = record m { commands_processed = inc64 m.commands_processed }

pub on_command_error : ServerMetrics → ServerMetrics
on_command_error m = record m { command_errors = inc64 m.command_errors }

pub on_protocol_error : ServerMetrics → ServerMetrics
on_protocol_error m = record m { protocol_errors = inc64 m.protocol_errors }

pub on_slow_client_disconnected : ServerMetrics → ServerMetrics
on_slow_client_disconnected m = record m {
  slow_client_disconnects = inc64 m.slow_client_disconnects;
}

pub on_read_paused : ServerMetrics → ServerMetrics
on_read_paused m = record m { read_pause_transitions = inc64 m.read_pause_transitions }

pub on_read_resumed : ServerMetrics → ServerMetrics
on_read_resumed m = record m { read_resume_transitions = inc64 m.read_resume_transitions }

pub on_sweeper_run : ℕ → ServerMetrics → ServerMetrics
on_sweeper_run removed m = record m {
  sweeper_runs = inc64 m.sweeper_runs;
  expired_keys_removed = add64 m.expired_keys_removed removed;
}

pub add_forced_shutdown_connections : ℕ → ServerMetrics → ServerMetrics
add_forced_shutdown_connections n m = record m {
  forced_shutdown_connections = add64 m.forced_shutdown_connections n;
}

-- The compare-and-swap loop, once it has succeeded.
pub update_maximum : ℕ → ℕ → ℕ
update_maximum target candidate = if ltb target candidate then candidate else target

pub observe_pending_write_bytes : ℕ → ServerMetrics → ServerMetrics
unfolding update_maximum
observe_pending_write_bytes n m = record m {
  maximum_pending_write_bytes = update_maximum m.maximum_pending_write_bytes n;
}

-- The loop over the bounds.
pub bucket_index : List ℕ → ℕ → ℕ
bucket_index [] latency = 0
bucket_index (b ∷ bounds) latency =
    let rest = bucket_index bounds latency in if ltb b latency then suc rest else 0

pub inc_at : List ℕ → ℕ → List ℕ
inc_at [] i = []
inc_at (n ∷ ns) zero = inc64 n ∷ ns
inc_at (n ∷ ns) (suc i) = n ∷ inc_at ns i

abbrev pub not_negative : ℤ → ℕ
not_negative (pos n) = n
not_negative (negsuc n) = 0

pub record_latency : ℕ → ServerMetrics → ServerMetrics
unfolding update_maximum bucket_index inc_at
record_latency ns m = record m {
  command_latency_count = inc64 m.command_latency_count;
  command_latency_total = add64 m.command_latency_total ns;
  command_latency_maximum = update_maximum m.command_latency_maximum ns;
  command_latency_buckets =
      inc_at m.command_latency_buckets (bucket_index latency_upper_bounds_ns ns);
}

pub record_command_latency : ℤ → ServerMetrics → ServerMetrics
unfolding record_latency
record_command_latency latency m = record_latency (not_negative latency) m

-- `SubReactor::EstimatePercentileBucketUs`. The rank, which the source computes in `double`, is an
-- argument; so are the bounds that are left, and the sum of the buckets before.
pub percentile_loop : List ℕ → List ℕ → ℕ → ℕ → Bytes
percentile_loop (b ∷ bounds) (n ∷ ns) accumulated target =
    let rest = percentile_loop bounds ns (add64 accumulated n) target in
    if leb target (add64 accumulated n) then to_string b else rest
percentile_loop _ _ accumulated target = codes ">5000"

abbrev pub upper_bounds_us : List ℕ
upper_bounds_us = 10 ∷ 50 ∷ 100 ∷ 500 ∷ 1000 ∷ 5000 ∷ []

pub estimate_percentile_bucket_us : ServerMetrics → ℕ → Bytes
unfolding percentile_loop
estimate_percentile_bucket_us m target_rank = elim (m.command_latency_count) [
  | zero ↦ codes "0"
  | suc n ↦ percentile_loop upper_bounds_us m.command_latency_buckets 0 target_rank
]
