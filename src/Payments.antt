-- ===== src/Payments.antt =====
-- Payments (src/apps/payments): matching a repayment with a bank transaction.
pub mod Records
pub mod Transactions
pub mod Accounts
pub mod Reconciliation
pub mod Gmail
