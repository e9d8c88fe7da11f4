-- ===== src/Queue.antt =====
-- queue/: the shared types (Types), the contract of the interface Queue as a bounded list (Fifo),
-- and the blocking queue (Blocking).
pub mod Types
pub mod Fifo
pub mod Blocking
pub mod NonBlocking
