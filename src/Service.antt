-- ===== src/Service.antt =====
-- internal/api/handlers.go, internal/services/rca_service.go and internal/metrics/metrics.go: the gRPC
-- service. A pointer that may be nil is an `Option`; a timestamp of a message is the time it stands for.
pub mod Messages
pub mod Metrics
pub mod Handlers
pub mod Accounting
pub mod Concurrent
pub mod Reading
pub mod Reporting
