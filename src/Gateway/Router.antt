-- ===== src/Gateway/Router.antt =====
-- The router of the gateways (internal/gateway/router.go): a message is resolved to a user, gated, and
-- answered; an account that nobody owns goes through the registration.
pub mod State
pub mod Skills
pub mod Process
pub mod Asked
pub mod Gated
pub mod Registration
pub mod Untouched
pub mod Lookups
pub mod Children
