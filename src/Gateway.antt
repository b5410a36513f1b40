-- ===== src/Gateway.antt =====
-- The message gateway (internal/gateway).
pub mod Chunk
pub mod Router
pub mod Session
