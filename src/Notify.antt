-- ===== src/Notify.antt =====
-- The links for parents (internal/notify/notifier.go).
mod Base64
pub mod Decimal
pub mod Token
