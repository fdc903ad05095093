-- ===== src/Api.antt =====
-- app/main.py: the endpoints.
pub mod Auth
pub mod Account
pub mod Admin
pub mod Webhook
pub mod Sessions
pub mod Server
pub mod Concurrent
pub mod Bodies
