-- ===== src/Postgres/Conservation.antt =====
-- internal/adapters/postgres: the lots and their closures beside each other.
pub mod Lots
pub mod Posting
pub mod Operations
