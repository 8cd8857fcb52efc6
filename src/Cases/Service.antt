-- ===== src/Cases/Service.antt =====
-- `CaseService` of backend/internal/service/case_service.go. Each read and each transaction of a
-- request is a step of its own: before it the other requests go on.
pub mod Base
pub mod Creation
pub mod Analysis
pub mod Decision
unfoldable pub use Base.*
unfoldable pub use Creation.*
unfoldable pub use Analysis.*
unfoldable pub use Decision.*
