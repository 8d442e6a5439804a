-- ===== src/Observability/ServerMetrics/Tests.antt =====
-- Runs of src/observability/server_metrics.cpp.
use tinykvcache.Prelude.{◌<◌, ◌↔◌, List, [], ◌∷◌, arith}
use tinykvcache.Prelude.Int.{pos}
use tinykvcache.Observability.ServerMetrics.{init, bucket_index, latency_upper_bounds_ns}
use tinykvcache.Observability.ServerMetrics.Balance.{
  IsBalanced, Update, accepted, closed, latency, apply_all, apply_all-IsBalanced,
}
use tinykvcache.Observability.ServerMetrics.Latency.{get_or, bucket_index_iff}

abbrev updates : List Update
updates = accepted ∷ accepted ∷ latency (pos 150000) ∷ closed ∷ []

apply_all-IsBalanced_example : IsBalanced (apply_all updates init)
apply_all-IsBalanced_example = apply_all-IsBalanced updates

bucket_index_iff_example :
    (1 < bucket_index latency_upper_bounds_ns 700000)
    ↔ (get_or latency_upper_bounds_ns 1 0 < 700000)
bucket_index_iff_example = bucket_index_iff 700000 1 (omega arith)
