-- ===== src/Platform/Rows/Payments.antt =====
-- src/apps/payments/models.py
use nance_peer_lend_borrow_p.Prelude.{ℕ, String}
use nance_peer_lend_borrow_p.Prelude.Int.{ℤ}

pub data TransactionDirection : Type 0 where
  debit credit : TransactionDirection

pub data AccountType : Type 0 where
  savings current wallet other : AccountType

pub data TransactionSource : Type 0 where
  manual gmail : TransactionSource

pub data DiscoveredAccountStatus : Type 0 where
  linked dismissed unlinked : DiscoveredAccountStatus

pub record BankTransaction : Type 0 where
  pub user_id : ℕ
  pub amount : ℤ
  pub transaction_date : ℕ
  pub narration : String
  pub direction : TransactionDirection
  pub account_number : String
  pub bank : String
  pub account_type : AccountType
  pub source : TransactionSource
  pub raw_email_reference_id : String
  pub created_at : ℕ
  pub updated_at : ℕ

pub record DiscoveredAccount : Type 0 where
  pub user_id : ℕ
  pub account_number : String
  pub bank : String
  pub account_type : AccountType
  pub status : DiscoveredAccountStatus
  pub first_seen_at : ℕ
  pub supporting_email_count : ℕ
  pub created_at : ℕ
  pub updated_at : ℕ
