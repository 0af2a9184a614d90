-- ===== src/Tests.antt =====
-- Concrete runs at which the theorems apply.
mod Sample
mod Loans
mod Replays
mod Money
mod Messages
mod Families
mod Payments
mod Connections
mod Sockets
mod Mails
