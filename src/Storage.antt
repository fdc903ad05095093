-- ===== src/Storage.antt =====
-- app/storage: the tables and the repository.
pub mod Models
pub mod Action
pub mod Columns
pub mod Tenants
pub mod Subscription
pub mod Settings
pub mod Credentials
pub mod Trades
