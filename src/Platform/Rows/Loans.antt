-- ===== src/Platform/Rows/Loans.antt =====
-- src/apps/accounts/models.py (User), src/apps/loans/choices.py, src/apps/loans/models.py
use nance_peer_lend_borrow_p.Prelude.{ℕ, String, Bool, true, false, Option}
use nance_peer_lend_borrow_p.Prelude.Int.{ℤ}

pub record User : Type 0 where
  pub mobile_number : String
  pub name : String
  pub is_active : Bool

pub data LoanStatus : Type 0 where
  draft pending_invite pending_review approved rejected disbursed active closed cancelled :
      LoanStatus

pub record Loan : Type 0 where
  pub borrower_id : ℕ
  pub lender_id : Option ℕ
  pub status : LoanStatus
  pub principal_amount : ℤ
  pub currency : String
  pub interest_rate : ℤ
  pub repayment_term_months : ℤ
  pub starts_at : ℕ
  pub ends_at : ℕ
  pub purpose : String
  pub source_transaction_reference : String
  pub rejection_reason : String
  pub submitted_at : Option ℕ
  pub approved_at : Option ℕ
  pub disbursed_at : Option ℕ
  pub closed_at : Option ℕ
  pub created_at : ℕ
  pub updated_at : ℕ

pub data RepaymentStatus : Type 0 where
  scheduled partial paid overdue : RepaymentStatus

pub data MatchConfidence : Type 0 where
  high medium low : MatchConfidence

pub record Repayment : Type 0 where
  pub loan_id : ℕ
  pub installment_number : ℤ
  pub due_date : ℕ
  pub amount_due : ℤ
  pub amount_paid : ℤ
  pub note : String
  pub transaction_reference : String
  pub matched_transaction : Option ℕ
  pub match_confidence : Option MatchConfidence
  pub requires_manual_review : Bool
  pub status : RepaymentStatus
  pub paid_at : Option ℕ
  pub created_at : ℕ
  pub updated_at : ℕ

-- `a == b` of two statuses
abbrev pub loan_status_eq : LoanStatus → LoanStatus → Bool
loan_status_eq draft draft = true
loan_status_eq pending_invite pending_invite = true
loan_status_eq pending_review pending_review = true
loan_status_eq approved approved = true
loan_status_eq rejected rejected = true
loan_status_eq disbursed disbursed = true
loan_status_eq active active = true
loan_status_eq closed closed = true
loan_status_eq cancelled cancelled = true
loan_status_eq _ _ = false

abbrev pub repayment_status_eq : RepaymentStatus → RepaymentStatus → Bool
repayment_status_eq scheduled scheduled = true
repayment_status_eq partial partial = true
repayment_status_eq paid paid = true
repayment_status_eq overdue overdue = true
repayment_status_eq _ _ = false
