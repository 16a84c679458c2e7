-- ===== src/Service/Reporting.antt =====
-- internal/services/rca_service.go, `InvestigateIncident`: when the latencies are logged.
