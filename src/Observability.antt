-- ===== src/Observability.antt =====
-- src/observability: what the server counts.
pub mod ServerMetrics
