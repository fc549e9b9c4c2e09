-- ===== src/Metrics.antt =====
-- pkg/utils/metrics: metric vectors, timers, admission latencies and the health check.
pub mod Vectors
pub mod Timer
pub mod Admission
pub mod HealthCheck
pub mod Endpoint
