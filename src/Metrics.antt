-- ===== src/Metrics.antt =====
-- src/metrics: the families of metrics, and each thread's counters of them.
pub mod Registry
pub mod Local
