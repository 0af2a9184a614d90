-- ===== src/Payments/Gmail.antt =====
-- The mails of banks: src/apps/payments/services/gmail_parsers and gmail_ingestion_service.py.
pub mod Fields
pub mod Ignored
pub mod Parsers
pub mod Ingestion
pub mod Body
