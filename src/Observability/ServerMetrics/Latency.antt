-- ===== src/Observability/ServerMetrics/Latency.antt =====
-- The histogram of src/observability/server_metrics.cpp: which bucket a latency goes to.
use tinykvcache.Prelude.{ℕ, zero, suc, ◌<◌, ◌↔◌, List, [], ◌∷◌, arith}
use tinykvcache.Observability.ServerMetrics.{bucket_index, latency_upper_bounds_ns}

abbrev pub get_or : List ℕ → ℕ → ℕ → ℕ
get_or [] i d = d
get_or (x ∷ xs) zero d = x
get_or (x ∷ xs) (suc i) d = get_or xs i d

-- The bucket's number counts the bounds that a latency passes: it passes the bounds below its bucket,
-- and no other.
pub bucket_index_iff :
    (n k : ℕ)
    → k < 6
    → (k < bucket_index latency_upper_bounds_ns n) ↔ (get_or latency_upper_bounds_ns k 0 < n)
unfolding bucket_index
bucket_index_iff n zero h = ground arith
bucket_index_iff n (suc zero) h = ground arith
bucket_index_iff n (suc (suc zero)) h = ground arith
bucket_index_iff n (suc (suc (suc zero))) h = ground arith
bucket_index_iff n (suc (suc (suc (suc zero)))) h = ground arith
bucket_index_iff n (suc (suc (suc (suc (suc zero))))) h = ground arith
bucket_index_iff n (suc (suc (suc (suc (suc (suc k)))))) h = absurd (omega arith)
