-- ===== src/Loans/LoanService/Refinement.antt =====
-- Acceptances make only the writes that the specification of Loans/History allows.
use nance_peer_lend_borrow_p.Prelude.{
  ℕ, ◌≡◌, ◌&&◌, String, true, not, Option, some, ◌∷◌, [], arith, ◌==◌,
}
use nance_peer_lend_borrow_p.Platform.Table.{get, update}
use nance_peer_lend_borrow_p.Platform.Errors.{ok}
use nance_peer_lend_borrow_p.Platform.Rows.Loans.{Loan, LoanStatus, active, loan_status_eq}
use nance_peer_lend_borrow_p.Platform.Rows.Notices.{Value, Payload}
use nance_peer_lend_borrow_p.Platform.World.{
  World, Env, queue_notification_on_commit, record_state_change,
}
use nance_peer_lend_borrow_p.Loans.Validation.{save_loan, loan_full_clean}
use nance_peer_lend_borrow_p.Loans.Validation.Soundness.{loan_full_clean-IsSoundLoan}
use nance_peer_lend_borrow_p.Loans.History.{
  Core, core, Writes, one-Write, moves, loan_event, LoanMove, SameTerms,
}
use nance_peer_lend_borrow_p.Loans.History.Trace.{
  Trace, SeqLe, Trace-same, Trace-of_ok, Trace-read, Trace-missing, Trace-raise_if, Trace-if,
  Trace-or_else, Effect, atomic-Effect,
}
use nance_peer_lend_borrow_p.Loans.LoanService.Helpers.{
  store_idempotent_result, record_status_change, resolve_idempotent_result,
}
use nance_peer_lend_borrow_p.Loans.LoanService.{
  activate_loan, settle_request, accept_body, accept_request, accept_locked, accept_loan,
  is_pending,
}

accept-LoanMove : (s : LoanStatus) → is_pending s ≡ true → LoanMove s active
accept-LoanMove LoanStatus.pending_review h = LoanMove.accept_review
accept-LoanMove LoanStatus.pending_invite h = LoanMove.accept_invite
accept-LoanMove LoanStatus.draft h = cc
accept-LoanMove LoanStatus.approved h = cc
accept-LoanMove LoanStatus.rejected h = cc
accept-LoanMove LoanStatus.disbursed h = cc
accept-LoanMove LoanStatus.active h = cc
accept-LoanMove LoanStatus.closed h = cc
accept-LoanMove LoanStatus.cancelled h = cc

-- A saved status change with its event is one write.
pub move_refines :
    (env : Env) (id : ℕ) (old new : Loan) (actor : Option ℕ) (p : Payload) (w : World) (d : Core)
    → get id w.db.loans ≡ some old
    → LoanMove old.status new.status
    → SameTerms old new
    → loan_full_clean env w.db new ≡ true
    → d ≡ record (core w) {
      loans = update id new w.db.loans;
      audit = loan_event id (Value.loan_status old.status) new.status actor p ∷ w.db.audit;
    }
    → Writes (core w) d
move_refines env id old new actor p w d h m t v e =
    rw e (one-Write (moves id old new actor p h m t (loan_full_clean-IsSoundLoan env w.db new v)))

module _ (env : Env) (loan_id : ℕ) (key fingerprint : String) (w : World) where
  settle-core :
      (action : String) (l : Loan)
      → core (settle_request env action loan_id key fingerprint l w).1 ≡ core w
  unfolding settle_request store_idempotent_result
  settle-core action l = ground arith

  pub settle-Trace :
      (action : String) (l : Loan) → Trace w (settle_request env action loan_id key fingerprint l w)
  settle-Trace action l =
      Trace-same w (settle_request env action loan_id key fingerprint l w) (settle-core action l)

pub resolve-state :
    (action key fingerprint : String) (w : World)
    → (resolve_idempotent_result action key fingerprint w).1 ≡ w
unfolding resolve_idempotent_result
resolve-state action key fingerprint w = ground arith

module _ (env : Env) (loan_id user_id : ℕ) (key fingerprint : String) (w : World) where
  module _ (old : Loan) where
    abbrev pub accepted : Loan
    accepted = record old {
      status = active;
      approved_at = some w.clock;
      rejection_reason = "";
      updated_at = w.clock;
    }

    abbrev pub accepted_metadata : Payload
    accepted_metadata = ("action", Value.text "loan.accept") ∷ []

    activate-effect :
        (r : ℕ × Loan)
        → (activate_loan env loan_id user_id key fingerprint old w).0 ≡ ok r
        → (is_pending old.status ≡ true)
          × (loan_full_clean env w.db accepted ≡ true)
          × (core (activate_loan env loan_id user_id key fingerprint old w).1 ≡ record (core w) {
            loans = update loan_id accepted w.db.loans;
            audit =
                loan_event loan_id
                  (Value.loan_status old.status)
                  active
                  (some user_id)
                  accepted_metadata
                ∷ w.db.audit;
          })
    unfolding activate_loan save_loan record_status_change store_idempotent_result
        record_state_change queue_notification_on_commit
    activate-effect r h = ground arith

    activate-seq : SeqLe (core w) (core (activate_loan env loan_id user_id key fingerprint old w).1)
    unfolding activate_loan save_loan record_status_change store_idempotent_result
        record_state_change queue_notification_on_commit
    activate-seq = ground arith

    activate-Trace :
        get loan_id w.db.loans ≡ some old
        → Trace w (activate_loan env loan_id user_id key fingerprint old w)
    activate-Trace h =
        Trace-of_ok w (activate_loan env loan_id user_id key fingerprint old w)
          (λ r e.
            let f = activate-effect r e in
            move_refines env loan_id old accepted (some user_id) accepted_metadata w _ h
              (accept-LoanMove old.status f.0) (ground arith) f.1 f.2)
          activate-seq

  accept_locked-Trace : Trace w (accept_locked env loan_id user_id key fingerprint w)
  unfolding accept_locked
  accept_locked-Trace = Trace-missing w (get loan_id w.db.loans) _ λ old h.
      Trace-raise_if w (not (user_id == old.borrower_id)) _ _ λ _.
        Trace-if w (loan_status_eq old.status active && old.borrower_id == user_id) _ _
          (λ _. settle-Trace env loan_id key fingerprint w "accept_loan" old)
          (λ _. activate-Trace old h)

accept_body-Trace :
    (env : Env) (loan_id user_id : ℕ) (key : String) (w : World)
    → Trace w (accept_body env loan_id user_id key w)
unfolding accept_body
accept_body-Trace env loan_id user_id key w =
    let fingerprint = env.digest (accept_request loan_id user_id) in
    Trace-read w (resolve_idempotent_result "accept_loan" key fingerprint) _
      (resolve-state "accept_loan" key fingerprint w)
      λ existing _.
        Trace-or_else w existing _ (accept_locked-Trace env loan_id user_id key fingerprint w)

-- Accepting makes only allowed writes, and none where it fails.
pub accept_loan-Effect :
    (env : Env) (loan_id user_id : ℕ) (key : String) (w : World)
    → Effect w (accept_loan env loan_id user_id key w)
unfolding accept_loan
accept_loan-Effect env loan_id user_id key w =
    atomic-Effect w (accept_body env loan_id user_id key)
      (accept_body-Trace env loan_id user_id key (record w { hooks = [] }))
