-- ===== src/Events.antt =====
-- The detection and the review of events: backend/internal/service/event_service.go.
pub mod Repository
pub mod Service
pub mod Reviewed
pub mod Detection
pub mod Detected
pub mod Replaced
pub mod Lasting
