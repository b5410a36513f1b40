-- ===== src/Web.antt =====
-- The web interface (internal/web).
pub mod LoginLimiter
pub mod DecideLink
