-- ===== src/Traces.antt =====
-- Traces: backend/internal/repository/trace_repository.go and
-- backend/internal/service/trace_service.go.
pub mod Service
pub mod Imported
pub mod Stored
pub mod Lasting
