-- ===== src/Toolcache.antt =====
-- The cache of large tool results (internal/toolcache).
pub mod Rows
pub mod Files
pub mod Cache
pub mod Sweep
pub mod Ids
