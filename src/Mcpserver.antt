-- ===== src/Mcpserver.antt =====
-- The server of the Android tools (internal/mcpserver): what stands before a call of adb.
pub mod RateLimit
pub mod PolicyConfig
pub mod PolicyEngine
