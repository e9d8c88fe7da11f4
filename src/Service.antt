-- ===== src/Service.antt =====
-- internal/queueservice/: the lists of items in a command's argument (Items), the registry of queues (InMemory), and its
-- contract (Contract).
pub mod Items
pub mod InMemory
pub mod Contract
pub mod Registry
pub mod Refine
mod Tests
