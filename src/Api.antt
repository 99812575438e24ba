-- ===== src/Api.antt =====
-- internal/api: the control plane, whose handlers translate between requests and the services.
pub mod Orders
pub mod Events
pub mod Snapshots
