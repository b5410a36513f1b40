-- ===== src/Scenarios.antt =====
-- Concrete runs of the models, at which the theorems are applied.
mod Reminders
mod Caching
mod Chunks
mod Conversations
mod Tools
mod Limits
mod Agents
mod Approvals
mod Blocking
mod Routing
mod Times
