-- ===== src/Postgres.antt =====
-- internal/adapters/postgres: the durable store. `Schema` has the tables, `Session` what a statement
-- and a transaction are, the others the statements and the methods that run them.
pub mod Schema
pub mod Session
pub mod Queries
pub mod LedgerQueries
pub mod LedgerPosting
pub mod OrderStore
pub mod OrderMethods
pub mod OutboxStore
pub mod Checkpoints
pub mod Conservation
pub mod Soundness
