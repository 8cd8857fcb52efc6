-- ===== src/Routes.antt =====
-- Routes: backend/internal/repository/fiber_route_repository.go and
-- backend/internal/service/route_service.go.
pub mod Repository
pub mod Service
pub mod Codes
pub mod Baseline
pub mod Lasting
