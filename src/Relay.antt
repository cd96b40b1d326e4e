-- ===== src/Relay.antt =====
-- src/bin/shm2_relayd.rs: the relay daemon: its arguments, its clients, and what they send. The pipelines
-- are GStreamer's; of them only the state that the daemon asks for is modelled.
pub mod Listen
pub mod Pipeline
pub mod Args
pub mod Clients
pub mod Lines
pub mod Samples
pub mod Setup
pub mod Sockets
pub mod Daemon
mod Tests
