-- ===== src/Postgres/Soundness.antt =====
-- internal/adapters/postgres: what the tables of orders, transitions and fills have in common, and that
-- each operation of the stores keeps it.
pub mod Tables
pub mod Changes
pub mod Operations
