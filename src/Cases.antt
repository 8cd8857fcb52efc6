-- ===== src/Cases.antt =====
-- Localization cases: backend/internal/repository/case_repository.go and
-- backend/internal/service/case_service.go.
pub mod Repository
pub mod Documents
pub mod Service
pub mod Rows
pub mod Keeps
pub mod Guarantee
pub mod Calls
pub mod Locking
pub mod Inversion
pub mod Guards
pub mod Created
pub mod Released
