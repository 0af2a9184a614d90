-- ===== src/Platform/Rows.antt =====
-- The rows of the tables: the fields of the models. A time is a number of microseconds, a date a
-- number of days, an amount of money a number of hundredths.
pub mod Loans
pub mod Payments
pub mod Accounts
pub mod Family
pub mod Notices
