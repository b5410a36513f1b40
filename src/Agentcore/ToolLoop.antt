-- ===== src/Agentcore/ToolLoop.antt =====
-- The tool loop of a turn (internal/agentcore/stage_tool_loop.go), with `RebuildHistory` off, which is
-- its default. A log line changes nothing, and the duration of a call is left out.
pub mod State
pub mod Call
pub mod Loop
