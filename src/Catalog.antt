-- ===== src/Catalog.antt =====
-- src/catalog.rs, the durable record of every capture: a job's row and the transactions on it, and
-- the ledger that makes commands idempotent.
pub mod Types
pub mod Writes
pub mod Job
pub mod Ledger
pub mod Settlement
