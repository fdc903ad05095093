-- ===== src/Models.antt =====
-- app/models: the validated signal and the broker-agnostic order.
pub mod Signal
pub mod Order
