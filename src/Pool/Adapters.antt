-- ===== src/Pool/Adapters.antt =====
-- pool/adapters/: the connections that a pool may hold (Http, Redis, Grpc, Sql), and the helpers that get a connection of a
-- pool, use it and put it back (Helpers). What the clients under the connections answer is an input of each operation.
pub mod Sql
pub mod SqlFactory
pub mod Settled
pub mod Transact
pub mod Helpers
pub mod Http
pub mod Redis
pub mod Grpc
pub mod Revived
pub mod Helped
pub mod Kept
mod Tests
