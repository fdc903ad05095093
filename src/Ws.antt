-- ===== src/Ws.antt =====
-- app/ws: the live connections of the bridge agents, and the broker that relays orders over them.
pub mod Manager
pub mod Relay
