-- ===== src/Loans/LoanService/Ending.antt =====
-- Rejections and cancellations make only the writes that the specification of Loans/History allows
-- (src/apps/loans/services/loan_service.py).
use nance_peer_lend_borrow_p.Prelude.{
  ℕ, ◌≡◌, ◌&&◌, String, true, not, some, ◌∷◌, [], arith, ◌==◌, str_eq, opt_eq,
}
use nance_peer_lend_borrow_p.Prelude.Text.{strip}
use nance_peer_lend_borrow_p.Platform.Table.{get, update}
use nance_peer_lend_borrow_p.Platform.Errors.{ok}
use nance_peer_lend_borrow_p.Platform.Rows.Loans.{
  Loan, LoanStatus, rejected, cancelled, pending_review, loan_status_eq,
}
use nance_peer_lend_borrow_p.Platform.Rows.Notices.{Value, Payload}
use nance_peer_lend_borrow_p.Platform.World.{
  World, Env, queue_notification_on_commit, record_state_change,
}
use nance_peer_lend_borrow_p.Loans.Validation.{save_loan, loan_full_clean}
use nance_peer_lend_borrow_p.Loans.History.{core, loan_event, LoanMove}
use nance_peer_lend_borrow_p.Loans.History.Trace.{
  Trace, SeqLe, Trace-of_ok, Trace-read, Trace-missing, Trace-raise_if, Trace-if, Trace-or_else,
  Effect, atomic-Effect,
}
use nance_peer_lend_borrow_p.Loans.LoanService.Helpers.{
  store_idempotent_result, record_status_change, resolve_idempotent_result,
}
use nance_peer_lend_borrow_p.Loans.LoanService.Refinement.{
  move_refines, settle-Trace, resolve-state,
}
use nance_peer_lend_borrow_p.Loans.LoanService.{
  close_request, withdraw_loan, reject_body, cancel_body, reject_request, cancel_request,
  reject_locked, cancel_locked, reject_loan, cancel_loan, is_pending,
}

reject-LoanMove : (s : LoanStatus) → is_pending s ≡ true → LoanMove s rejected
reject-LoanMove LoanStatus.pending_review h = LoanMove.reject_review
reject-LoanMove LoanStatus.pending_invite h = LoanMove.reject_invite
reject-LoanMove LoanStatus.draft h = cc
reject-LoanMove LoanStatus.approved h = cc
reject-LoanMove LoanStatus.rejected h = cc
reject-LoanMove LoanStatus.disbursed h = cc
reject-LoanMove LoanStatus.active h = cc
reject-LoanMove LoanStatus.closed h = cc
reject-LoanMove LoanStatus.cancelled h = cc

cancel-LoanMove : (s : LoanStatus) → loan_status_eq s pending_review ≡ true → LoanMove s cancelled
cancel-LoanMove LoanStatus.pending_review h = LoanMove.cancel
cancel-LoanMove LoanStatus.pending_invite h = cc
cancel-LoanMove LoanStatus.draft h = cc
cancel-LoanMove LoanStatus.approved h = cc
cancel-LoanMove LoanStatus.rejected h = cc
cancel-LoanMove LoanStatus.disbursed h = cc
cancel-LoanMove LoanStatus.active h = cc
cancel-LoanMove LoanStatus.closed h = cc
cancel-LoanMove LoanStatus.cancelled h = cc

module _ (env : Env) (loan_id user_id : ℕ) (reason key fingerprint : String) (w : World) where
  module _ (old : Loan) where
    abbrev refused : Loan
    refused = record old {
      status = rejected;
      rejection_reason = strip reason;
      updated_at = w.clock;
    }

    abbrev refused_metadata : Payload
    refused_metadata =
        ("action", Value.text "loan.reject") ∷ (("reason", Value.text (strip reason)) ∷ [])

    close_request-effect :
        (r : ℕ × Loan)
        → (close_request env loan_id user_id reason key fingerprint old w).0 ≡ ok r
        → (is_pending old.status ≡ true)
          × (loan_full_clean env w.db refused ≡ true)
          × (core (close_request env loan_id user_id reason key fingerprint old w).1
              ≡ record (core w) {
                loans = update loan_id refused w.db.loans;
                audit =
                    loan_event loan_id
                      (Value.loan_status old.status)
                      rejected
                      (some user_id)
                      refused_metadata
                    ∷ w.db.audit;
              })
    unfolding close_request save_loan record_status_change store_idempotent_result
        record_state_change queue_notification_on_commit
    close_request-effect r h = ground arith

    close_request-seq :
        SeqLe (core w) (core (close_request env loan_id user_id reason key fingerprint old w).1)
    unfolding close_request save_loan record_status_change store_idempotent_result
        record_state_change queue_notification_on_commit
    close_request-seq = ground arith

    close_request-Trace :
        get loan_id w.db.loans ≡ some old
        → Trace w (close_request env loan_id user_id reason key fingerprint old w)
    close_request-Trace h =
        Trace-of_ok w (close_request env loan_id user_id reason key fingerprint old w)
          (λ r e.
            let f = close_request-effect r e in
            move_refines env loan_id old refused (some user_id) refused_metadata w _ h
              (reject-LoanMove old.status f.0) (ground arith) f.1 f.2)
          close_request-seq

  reject_locked-Trace : Trace w (reject_locked env loan_id user_id reason key fingerprint w)
  unfolding reject_locked
  reject_locked-Trace = Trace-missing w (get loan_id w.db.loans) _ λ old h.
      Trace-raise_if w (not (user_id == old.borrower_id)) _ _ λ _.
        Trace-if w (loan_status_eq old.status rejected && str_eq old.rejection_reason reason) _ _
          (λ _. settle-Trace env loan_id key fingerprint w "reject_loan" old)
          (λ _. close_request-Trace old h)

reject_body-Trace :
    (env : Env) (loan_id user_id : ℕ) (reason key : String) (w : World)
    → Trace w (reject_body env loan_id user_id reason key w)
unfolding reject_body
reject_body-Trace env loan_id user_id reason key w =
    let fingerprint = env.digest (reject_request loan_id user_id reason) in
    Trace-read w (resolve_idempotent_result "reject_loan" key fingerprint) _
      (resolve-state "reject_loan" key fingerprint w)
      λ existing _.
        Trace-or_else w existing _
          (reject_locked-Trace env loan_id user_id reason key fingerprint w)

-- Rejecting makes only allowed writes, and none where it fails.
pub reject_loan-Effect :
    (env : Env) (loan_id user_id : ℕ) (reason key : String) (w : World)
    → Effect w (reject_loan env loan_id user_id reason key w)
unfolding reject_loan
reject_loan-Effect env loan_id user_id reason key w =
    atomic-Effect w (reject_body env loan_id user_id reason key)
      (reject_body-Trace env loan_id user_id reason key (record w { hooks = [] }))

module _ (env : Env) (loan_id user_id : ℕ) (key fingerprint : String) (w : World) where
  module _ (old : Loan) where
    abbrev withdrawn : Loan
    withdrawn = record old { status = cancelled; updated_at = w.clock }

    abbrev withdrawn_metadata : Payload
    withdrawn_metadata = ("action", Value.text "loan.cancel") ∷ []

    withdraw-effect :
        (r : ℕ × Loan)
        → (withdraw_loan env loan_id user_id key fingerprint old w).0 ≡ ok r
        → (loan_status_eq old.status pending_review ≡ true)
          × (loan_full_clean env w.db withdrawn ≡ true)
          × (core (withdraw_loan env loan_id user_id key fingerprint old w).1 ≡ record (core w) {
            loans = update loan_id withdrawn w.db.loans;
            audit =
                loan_event loan_id
                  (Value.loan_status old.status)
                  cancelled
                  (some user_id)
                  withdrawn_metadata
                ∷ w.db.audit;
          })
    unfolding withdraw_loan save_loan record_status_change store_idempotent_result
        record_state_change queue_notification_on_commit
    withdraw-effect r h = ground arith

    withdraw-seq : SeqLe (core w) (core (withdraw_loan env loan_id user_id key fingerprint old w).1)
    unfolding withdraw_loan save_loan record_status_change store_idempotent_result
        record_state_change queue_notification_on_commit
    withdraw-seq = ground arith

    withdraw-Trace :
        get loan_id w.db.loans ≡ some old
        → Trace w (withdraw_loan env loan_id user_id key fingerprint old w)
    withdraw-Trace h =
        Trace-of_ok w (withdraw_loan env loan_id user_id key fingerprint old w)
          (λ r e.
            let f = withdraw-effect r e in
            move_refines env loan_id old withdrawn (some user_id) withdrawn_metadata w _ h
              (cancel-LoanMove old.status f.0) (ground arith) f.1 f.2)
          withdraw-seq

  cancel_locked-Trace : Trace w (cancel_locked env loan_id user_id key fingerprint w)
  unfolding cancel_locked
  cancel_locked-Trace = Trace-missing w (get loan_id w.db.loans) _ λ old h.
      Trace-raise_if w (not (opt_eq (some user_id) old.lender_id)) _ _ λ _.
        Trace-if w (loan_status_eq old.status cancelled) _ _
          (λ _. settle-Trace env loan_id key fingerprint w "cancel_loan" old)
          (λ _. withdraw-Trace old h)

cancel_body-Trace :
    (env : Env) (loan_id user_id : ℕ) (key : String) (w : World)
    → Trace w (cancel_body env loan_id user_id key w)
unfolding cancel_body
cancel_body-Trace env loan_id user_id key w =
    let fingerprint = env.digest (cancel_request loan_id user_id) in
    Trace-read w (resolve_idempotent_result "cancel_loan" key fingerprint) _
      (resolve-state "cancel_loan" key fingerprint w)
      λ existing _.
        Trace-or_else w existing _ (cancel_locked-Trace env loan_id user_id key fingerprint w)

-- Cancelling makes only allowed writes, and none where it fails.
pub cancel_loan-Effect :
    (env : Env) (loan_id user_id : ℕ) (key : String) (w : World)
    → Effect w (cancel_loan env loan_id user_id key w)
unfolding cancel_loan
cancel_loan-Effect env loan_id user_id key w =
    atomic-Effect w (cancel_body env loan_id user_id key)
      (cancel_body-Trace env loan_id user_id key (record w { hooks = [] }))
