-- ===== src/Domain.antt =====
-- internal/domain: the vocabulary of instruments, orders and inventory, and the pure rules on it.
pub mod Instrument
pub mod Order
pub mod Account
pub mod Ledger
