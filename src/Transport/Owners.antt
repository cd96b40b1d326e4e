-- ===== src/Transport/Owners.antt =====
-- src/transport.rs: who owns a live buffer, over all orders in which writer and reader may act.
pub mod Ledger
pub mod Books
pub mod Grant
pub mod Moves
pub mod Reads
pub mod Latest
pub mod System
pub mod Hold
pub mod Tests
