-- ===== src/Loans.antt =====
-- Loans and their repayments (src/apps/loans): validation, the loan workflow, repayments.
pub mod Validation
pub mod History
pub mod LoanService
pub mod RepaymentService
pub mod Reminders
pub mod Sockets
pub mod Calls
