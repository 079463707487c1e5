-- ===== src/Monitor.antt =====
-- app/services/connector_monitor.py: the states of the connectors.
pub mod Probes
pub mod Connectors
pub mod Escapes
pub mod Refresh
mod Samples
