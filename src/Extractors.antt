-- ===== src/Extractors.antt =====
-- internal/extractors: the three anomaly detectors.
pub mod Metrics
pub mod Logs
pub mod Traces
