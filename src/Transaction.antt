-- ===== src/Transaction.antt =====
-- server/transaction: the sessions of transactions.
pub mod Session
mod Tests
