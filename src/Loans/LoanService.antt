-- ===== src/Loans/LoanService.antt =====
-- src/apps/loans/services/loan_service.py: the workflow of a loan request.
pub mod Acceptance
pub mod Helpers
pub mod Refinement
pub mod Ending
pub mod Opening
pub mod Replay
use nance_peer_lend_borrow_p.Prelude.{
  ℕ, ◌*◌, ◌==◌, ◌&&◌, ◌||◌, not, String, Bool, Option, none, some, List, [], ◌∷◌, opt_eq, str_eq,
  if◌then◌else◌,
}
use nance_peer_lend_borrow_p.Prelude.Int.{ℤ, pos}
use nance_peer_lend_borrow_p.Prelude.Text.{strip, show, text_append}
use nance_peer_lend_borrow_p.Platform.Table.{get}
use nance_peer_lend_borrow_p.Platform.Errors.{
  not_borrower_accept, not_borrower_reject, not_lender_cancel, not_pending_accept,
  not_pending_reject, not_cancellable,
}
use nance_peer_lend_borrow_p.Platform.Rows.Loans.{
  Loan, LoanStatus, pending_invite, pending_review, rejected, active, cancelled, loan_status_eq,
}
use nance_peer_lend_borrow_p.Platform.Rows.Notices.{Value, Payload}
use nance_peer_lend_borrow_p.Platform.World.{
  World, Hook, M, pure, gets, when, or_missing, or_else, ◌>>=◌, ◌>>◌, forbid, atomic, on_commit,
  queue_notification_on_commit, record_state_change, Env,
}
use nance_peer_lend_borrow_p.Loans.Validation.{save_loan, create_loan_row, validation}
use Helpers.{
  loan_service_helpers, ensure_positive_amount, resolve_borrower, ensure_distinct_parties,
  resolve_idempotent_result, store_idempotent_result, record_status_change,
}

-- The arguments of `create_loan`.
pub record CreateLoan : Type 0 where
  pub lender_id : ℕ
  pub borrower_id : Option ℕ
  pub borrower_mobile_number : Option String
  pub principal_amount : ℤ
  pub currency : String
  pub interest_rate : ℤ
  pub repayment_term_months : ℤ
  pub starts_at : ℕ
  pub ends_at : ℕ
  pub purpose : String
  pub source_transaction_reference : String
  pub idempotency_key : String
  -- `str` of the two numbers as they were sent, which tells 100 from 100.00
  pub principal_text : String
  pub rate_text : String

-- `_emit_event_on_commit`
abbrev emit_event_on_commit : ℕ → Loan → String → Option ℕ → M (Unit {0})
emit_event_on_commit id l event actor = on_commit (Hook.loan_event id l event actor)

-- `status in {PENDING_REVIEW, PENDING_INVITE}`
abbrev pub is_pending : LoanStatus → Bool
is_pending s = loan_status_eq s pending_review || loan_status_eq s pending_invite

abbrev pub id_value : ℕ → Value
id_value n = Value.num (pos n)

-- `payload={"loan_id": loan.id, "status": loan.status}`
abbrev loan_payload : ℕ → Loan → Payload
loan_payload id l = ("loan_id", id_value id) ∷ ("status", Value.loan_status l.status) ∷ []

abbrev pub new_loan : CreateLoan → ℕ → LoanStatus → ℕ → Loan
new_loan a borrower_id status now = record {
  borrower_id = borrower_id;
  lender_id = some a.lender_id;
  status = status;
  principal_amount = a.principal_amount;
  currency = a.currency;
  interest_rate = a.interest_rate;
  repayment_term_months = a.repayment_term_months;
  starts_at = a.starts_at;
  ends_at = a.ends_at;
  purpose = a.purpose;
  source_transaction_reference = a.source_transaction_reference;
  rejection_reason = "";
  submitted_at = some now;
  approved_at = none;
  disbursed_at = none;
  closed_at = none;
  created_at = now;
  updated_at = now;
}

-- The request data under the fingerprint of `create_loan`.
abbrev pub create_request : Env → CreateLoan → ℕ → String → Payload
create_request env a borrower_id mobile_number =
    ("borrower_id", id_value borrower_id)
    ∷ ("borrower_mobile_number", Value.text mobile_number)
    ∷ ("principal_amount", Value.text a.principal_text)
    ∷ ("currency", Value.text a.currency)
    ∷ ("interest_rate", Value.text a.rate_text)
    ∷ ("repayment_term_months", Value.num a.repayment_term_months)
    ∷ ("starts_at", Value.text (env.isoformat a.starts_at))
    ∷ ("ends_at", Value.text (env.isoformat a.ends_at))
    ∷ ("purpose", Value.text a.purpose)
    ∷ ("source_transaction_reference", Value.text a.source_transaction_reference)
    ∷ ("lender_id", id_value a.lender_id)
    ∷ []

-- The request data under the fingerprints of the other methods.
abbrev pub accept_request : ℕ → ℕ → Payload
accept_request loan_id borrower_id =
    ("loan_id", id_value loan_id) ∷ ("borrower_id", id_value borrower_id) ∷ []

abbrev pub reject_request : ℕ → ℕ → String → Payload
reject_request loan_id borrower_id reason =
    ("loan_id", id_value loan_id)
    ∷ ("borrower_id", id_value borrower_id)
    ∷ ("reason", Value.text reason)
    ∷ []

abbrev pub cancel_request : ℕ → ℕ → Payload
cancel_request loan_id user_id =
    ("loan_id", id_value loan_id) ∷ ("requested_by_user_id", id_value user_id) ∷ []

module _ (env : Env) where
  -- The part of `create_loan` behind the idempotency check.
  insert_new_loan : CreateLoan → ℕ → Bool → LoanStatus → String → M (ℕ × Loan)
  insert_new_loan a borrower_id borrower_active status fingerprint = do
    now ← gets (λ w. w.clock)
    let loan = new_loan a borrower_id status now
    id ← create_loan_row env loan
    store_idempotent_result "create_loan" a.idempotency_key fingerprint id
    record_status_change id none loan.status (some a.lender_id) "loan.create" []
    when borrower_active (
        queue_notification_on_commit (some borrower_id) "New Loan Request"
          "You have received a new loan request." "loan_created"
          (text_append "loan-created:" (show id)) (loan_payload id loan))
    emit_event_on_commit id loan "loan.created" (some a.lender_id)
    pure (id, loan)

  -- The body of `create_loan`, which runs in one transaction.
  create_body : CreateLoan → M (ℕ × Loan)
  create_body a = do
    ensure_positive_amount a.principal_amount
    (borrower_id, borrower, status) ← resolve_borrower env a.borrower_id a.borrower_mobile_number
    ensure_distinct_parties (some borrower_id) (some a.lender_id)
    let fingerprint = env.digest (create_request env a borrower_id borrower.mobile_number)
    existing ← resolve_idempotent_result "create_loan" a.idempotency_key fingerprint
    or_else existing (insert_new_loan a borrower_id borrower.is_active status fingerprint)

  pub create_loan : CreateLoan → M (ℕ × Loan)
  create_loan a = atomic (create_body a)

  -- The part of `accept_loan` behind the early returns: the loan becomes active.
  activate_loan : ℕ → ℕ → String → String → Loan → M (ℕ × Loan)
  activate_loan loan_id borrower_id key fingerprint old = do
    forbid (not (is_pending old.status)) not_pending_accept
    now ← gets (λ w. w.clock)
    let loan = record old {
      status = active;
      approved_at = some now;
      rejection_reason = "";
      updated_at = now;
    }
    save_loan env loan_id loan
    record_status_change loan_id (some old.status) loan.status (some borrower_id) "loan.accept" []
    store_idempotent_result "accept_loan" key fingerprint loan_id
    queue_notification_on_commit loan.lender_id "Loan Accepted"
        "Your loan request has been accepted by the borrower." "loan_accepted"
        (text_append "loan-accepted:" (show loan_id)) (loan_payload loan_id loan)
    emit_event_on_commit loan_id loan "loan.accepted" (some borrower_id)
    pure (loan_id, loan)

  -- A request for what is already so: its key is stored, and the loan comes back.
  pub settle_request : String → ℕ → String → String → Loan → M (ℕ × Loan)
  settle_request action loan_id key fingerprint loan = do
    store_idempotent_result action key fingerprint loan_id
    pure (loan_id, loan)

  -- `accept_loan` of a request that is not a replay
  accept_locked : ℕ → ℕ → String → String → M (ℕ × Loan)
  accept_locked loan_id borrower_id key fingerprint = do
    row ← gets (λ w. get loan_id w.db.loans)
    loan ← or_missing row
    forbid (not (borrower_id == loan.borrower_id)) not_borrower_accept
    if loan_status_eq loan.status active && loan.borrower_id == borrower_id
        then settle_request "accept_loan" loan_id key fingerprint loan
        else activate_loan loan_id borrower_id key fingerprint loan

  -- The body of `accept_loan`, which runs in one transaction.
  accept_body : ℕ → ℕ → String → M (ℕ × Loan)
  accept_body loan_id borrower_id key = do
    let fingerprint = env.digest (accept_request loan_id borrower_id)
    existing ← resolve_idempotent_result "accept_loan" key fingerprint
    or_else existing (accept_locked loan_id borrower_id key fingerprint)

  pub accept_loan : ℕ → ℕ → String → M (ℕ × Loan)
  accept_loan loan_id borrower_id key = atomic (accept_body loan_id borrower_id key)

  -- The part of `reject_loan` behind the early returns: the loan becomes rejected.
  close_request : ℕ → ℕ → String → String → String → Loan → M (ℕ × Loan)
  close_request loan_id borrower_id reason key fingerprint old = do
    forbid (not (is_pending old.status)) not_pending_reject
    now ← gets (λ w. w.clock)
    let loan = record old { status = rejected; rejection_reason = strip reason; updated_at = now }
    save_loan env loan_id loan
    record_status_change loan_id (some old.status) loan.status (some borrower_id) "loan.reject"
        (("reason", Value.text loan.rejection_reason) ∷ [])
    store_idempotent_result "reject_loan" key fingerprint loan_id
    queue_notification_on_commit loan.lender_id "Loan Rejected"
        "Your loan request has been rejected by the borrower." "loan_rejected"
        (text_append "loan-rejected:" (show loan_id))
        (("loan_id", id_value loan_id)
          ∷ ("status", Value.loan_status loan.status)
          ∷ ("reason", Value.text loan.rejection_reason)
          ∷ [])
    emit_event_on_commit loan_id loan "loan.rejected" (some borrower_id)
    pure (loan_id, loan)

  -- `reject_loan` of a request that is not a replay. The reason is compared as it was sent.
  reject_locked : ℕ → ℕ → String → String → String → M (ℕ × Loan)
  reject_locked loan_id borrower_id reason key fingerprint = do
    row ← gets (λ w. get loan_id w.db.loans)
    loan ← or_missing row
    forbid (not (borrower_id == loan.borrower_id)) not_borrower_reject
    if loan_status_eq loan.status rejected && str_eq loan.rejection_reason reason
        then settle_request "reject_loan" loan_id key fingerprint loan
        else close_request loan_id borrower_id reason key fingerprint loan

  -- The body of `reject_loan`, which runs in one transaction.
  reject_body : ℕ → ℕ → String → String → M (ℕ × Loan)
  reject_body loan_id borrower_id reason key = do
    let fingerprint = env.digest (reject_request loan_id borrower_id reason)
    existing ← resolve_idempotent_result "reject_loan" key fingerprint
    or_else existing (reject_locked loan_id borrower_id reason key fingerprint)

  pub reject_loan : ℕ → ℕ → String → String → M (ℕ × Loan)
  reject_loan loan_id borrower_id reason key = atomic (reject_body loan_id borrower_id reason key)

  -- The part of `cancel_loan` behind the early returns: the loan becomes cancelled.
  withdraw_loan : ℕ → ℕ → String → String → Loan → M (ℕ × Loan)
  withdraw_loan loan_id user_id key fingerprint old = do
    forbid (not (loan_status_eq old.status pending_review)) not_cancellable
    now ← gets (λ w. w.clock)
    let loan = record old { status = cancelled; updated_at = now }
    save_loan env loan_id loan
    record_status_change loan_id (some old.status) loan.status (some user_id) "loan.cancel" []
    store_idempotent_result "cancel_loan" key fingerprint loan_id
    queue_notification_on_commit (some loan.borrower_id) "Loan Cancelled"
        "The lender has cancelled this loan request." "loan_cancelled"
        (text_append "loan-cancelled:" (show loan_id)) (loan_payload loan_id loan)
    emit_event_on_commit loan_id loan "loan.cancelled" (some user_id)
    pure (loan_id, loan)

  -- `cancel_loan` of a request that is not a replay
  cancel_locked : ℕ → ℕ → String → String → M (ℕ × Loan)
  cancel_locked loan_id user_id key fingerprint = do
    row ← gets (λ w. get loan_id w.db.loans)
    loan ← or_missing row
    forbid (not (opt_eq (some user_id) loan.lender_id)) not_lender_cancel
    if loan_status_eq loan.status cancelled
        then settle_request "cancel_loan" loan_id key fingerprint loan
        else withdraw_loan loan_id user_id key fingerprint loan

  -- The body of `cancel_loan`, which runs in one transaction.
  cancel_body : ℕ → ℕ → String → M (ℕ × Loan)
  cancel_body loan_id user_id key = do
    let fingerprint = env.digest (cancel_request loan_id user_id)
    existing ← resolve_idempotent_result "cancel_loan" key fingerprint
    or_else existing (cancel_locked loan_id user_id key fingerprint)

  pub cancel_loan : ℕ → ℕ → String → M (ℕ × Loan)
  cancel_loan loan_id user_id key = atomic (cancel_body loan_id user_id key)

-- Opens the definitions of this file, to evaluate them.
unfoldable pub loan_service : Unit {0}
unfolding create_loan create_body insert_new_loan accept_loan accept_body accept_locked
    activate_loan reject_loan reject_body reject_locked close_request cancel_loan cancel_body
    cancel_locked withdraw_loan settle_request validation loan_service_helpers
    queue_notification_on_commit record_state_change strip show text_append
loan_service = tt
