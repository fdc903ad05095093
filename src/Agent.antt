-- ===== src/Agent.antt =====
-- bridge_agent/agent.py: the program that a customer runs beside the MT5 terminal.
pub mod Client
pub mod Frames
pub mod Loop
pub mod Requests
pub mod Exchange
pub mod Backoff
pub mod Run
pub mod Orders
pub mod Reconnect
pub mod Delivery
