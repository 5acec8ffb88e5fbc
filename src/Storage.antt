-- ===== src/Storage.antt =====
-- internal/storage: the PostgreSQL layer, one module for each consistency boundary.
pub mod Tables
pub mod Transactions
pub mod Shipments
pub mod Outbox
pub mod Dispatches
pub mod Invariant
