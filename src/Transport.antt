-- ===== src/Transport.antt =====
-- src/transport.rs: the shared region, its writer and its reader.
pub mod Types
pub mod Ring
pub mod Layout
pub mod Timeline
pub mod Writer
pub mod Reader
pub mod Queues
pub mod Publish
pub mod Receive
pub mod Latest
pub mod Live
pub mod Lease
pub mod Drain
pub mod Return
pub mod Attach
pub mod Payload
pub mod RoundTrip
pub mod Create
pub mod Deliver
pub mod Owners
pub mod Channel
pub mod Atomic
pub mod Tests
