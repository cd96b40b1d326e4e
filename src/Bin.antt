-- ===== src/Bin.antt =====
-- src/bin/shm2_producer.rs, src/bin/shm2_consumer.rs: the two demonstration programs.
pub mod Args
pub mod Producer
pub mod Consumer
pub mod Session
mod Tests
