-- ===== src/Ledger.antt =====
-- ledger.rs, by parts: the entries, the folds over them, the file with its signatures, the methods
-- that write, and `reconcile`.
pub mod Entry
pub mod Folds
pub mod Balances
pub mod Platform
pub mod Store
pub mod Methods
pub mod Reconcile
pub mod Laws
pub mod Books
pub mod Durability
pub mod Tampering
pub mod Sums
pub mod Dedup
pub mod Queue
pub mod Recovery
