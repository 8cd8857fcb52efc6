-- ===== src/Middleware.antt =====
-- backend/internal/middleware.
pub mod RateLimiter
