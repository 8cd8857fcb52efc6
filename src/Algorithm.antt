-- ===== src/Algorithm.antt =====
-- backend/internal/algorithm: the pure analysis of traces and events.
pub mod Distance
pub mod Denoise
pub mod Detect
pub mod Compare
