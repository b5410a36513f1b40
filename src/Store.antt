-- ===== src/Store.antt =====
-- Tables of the database (internal/store/db.go). A table is the list of its rows, a time the number of
-- its seconds, and each call of the database is told whether it fails.
pub mod Accounts
pub mod Approvals
pub mod Conversation
pub mod Roles
pub mod Tokens
