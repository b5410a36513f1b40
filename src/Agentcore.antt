-- ===== src/Agentcore.antt =====
-- The turn pipeline of the agent (internal/agentcore).
pub mod Json
pub mod Turn
pub mod Bridge
pub mod LoopDetector
pub mod ToolLoop
