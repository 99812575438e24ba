-- ===== src/Service.antt =====
-- internal/service: the long-running services of the daemon.
pub mod Outbox
pub mod Orders
pub mod Reconcile
pub mod Snapshots
pub mod Stores
