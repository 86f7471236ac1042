-- ===== src/Observer.antt =====
-- The state observer (state-observer/): polls the coordinators, checks a snapshot for anomalies,
-- and publishes metrics.
pub mod Cluster
pub mod Alerts
pub mod Metrics
pub mod Config
pub mod Run
pub mod Panels
pub mod Dashboard
