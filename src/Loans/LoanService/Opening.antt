-- ===== src/Loans/LoanService/Opening.antt =====
-- Creating a loan makes only the writes that the specification of Loans/History allows.
use nance_peer_lend_borrow_p.Prelude.{
  ℕ, ◌+◌, ◌≡◌, refl, ap, String, Bool, true, Option, none, some, ◌∷◌, [], arith,
}
use nance_peer_lend_borrow_p.Platform.Table.{insert}
use nance_peer_lend_borrow_p.Platform.Errors.{ok}
use nance_peer_lend_borrow_p.Platform.Rows.Loans.{User, Loan, LoanStatus}
use nance_peer_lend_borrow_p.Platform.Rows.Notices.{Value}
use nance_peer_lend_borrow_p.Platform.World.{
  World, Env, queue_notification_on_commit, record_state_change,
}
use nance_peer_lend_borrow_p.Loans.Validation.{create_loan_row, loan_full_clean}
use nance_peer_lend_borrow_p.Loans.Validation.Soundness.{loan_full_clean-IsSoundLoan}
use nance_peer_lend_borrow_p.Loans.History.{core, one-Write, opens, loan_event}
use nance_peer_lend_borrow_p.Loans.History.Trace.{
  Trace, SeqLe, Trace-same, Trace-of_ok, Trace-bind, Trace-read, Trace-or_else, Effect,
  atomic-Effect,
}
use nance_peer_lend_borrow_p.Loans.LoanService.Helpers.{
  store_idempotent_result, record_status_change, resolve_idempotent_result, resolve_borrower,
  ensure_positive_amount, ensure_distinct_parties,
}
use nance_peer_lend_borrow_p.Loans.LoanService.Refinement.{resolve-state}
use nance_peer_lend_borrow_p.Loans.LoanService.{
  CreateLoan, new_loan, create_request, insert_new_loan, create_body, create_loan, is_pending,
}

-- A new loan waits for its borrower's answer.
pub resolve-pending :
    (env : Env) (id : Option ℕ) (mobile : Option String) (w : World) (r : ℕ × User × LoanStatus)
    → (resolve_borrower env id mobile w).0 ≡ ok r
    → is_pending r.2 ≡ true
unfolding resolve_borrower
resolve-pending env none mobile w r h = ground arith
resolve-pending env (some id) mobile w r h = ground arith

resolve-core :
    (env : Env) (id : Option ℕ) (mobile : Option String) (w : World)
    → core (resolve_borrower env id mobile w).1 ≡ core w
unfolding resolve_borrower
resolve-core env none mobile w = ground arith
resolve-core env (some id) mobile w = ground arith

module _ (env : Env) (a : CreateLoan) (id : ℕ) (told : Bool) (status : LoanStatus)
    (fingerprint : String) (w : World) where
  opening-effect :
      (r : ℕ × Loan)
      → (insert_new_loan env a id told status fingerprint w).0 ≡ ok r
      → (loan_full_clean env w.db (new_loan a id status w.clock) ≡ true)
        × (core (insert_new_loan env a id told status fingerprint w).1 ≡ record (core w) {
          loans = insert w.seq.loan (new_loan a id status w.clock) w.db.loans;
          audit =
              loan_event w.seq.loan Value.null status
                (some a.lender_id)
                (("action", Value.text "loan.create") ∷ [])
              ∷ w.db.audit;
          next_loan = w.seq.loan + 1;
        })
  unfolding insert_new_loan create_loan_row record_status_change store_idempotent_result
      record_state_change queue_notification_on_commit
  opening-effect r h = ground arith

  opening-seq : SeqLe (core w) (core (insert_new_loan env a id told status fingerprint w).1)
  unfolding insert_new_loan create_loan_row record_status_change store_idempotent_result
      record_state_change queue_notification_on_commit
  opening-seq = ground arith

  opening-Trace :
      is_pending status ≡ true → Trace w (insert_new_loan env a id told status fingerprint w)
  opening-Trace p =
      Trace-of_ok w (insert_new_loan env a id told status fingerprint w)
        (λ r e.
          let f = opening-effect r e in
          rw f.1 (
            one-Write (
              opens (new_loan a id status w.clock) (some a.lender_id)
                (("action", Value.text "loan.create") ∷ []) p
                (loan_full_clean-IsSoundLoan env w.db (new_loan a id status w.clock) f.0))))
        opening-seq

positive-state : (a : CreateLoan) (w : World) → (ensure_positive_amount a.principal_amount w).1 ≡ w
unfolding ensure_positive_amount
positive-state a w = refl

distinct-state : (b l : ℕ) (w : World) → (ensure_distinct_parties (some b) (some l) w).1 ≡ w
unfolding ensure_distinct_parties
distinct-state b l w = refl

create_body-Trace : (env : Env) (a : CreateLoan) (w : World) → Trace w (create_body env a w)
unfolding create_body
create_body-Trace env a w =
    Trace-read w (ensure_positive_amount a.principal_amount) _ (positive-state a w) λ _ _.
      Trace-bind w (resolve_borrower env a.borrower_id a.borrower_mobile_number) _
        (Trace-same w (resolve_borrower env a.borrower_id a.borrower_mobile_number w)
          (resolve-core env a.borrower_id a.borrower_mobile_number w))
        λ r v found.
          Trace-read v (ensure_distinct_parties (some r.0) (some a.lender_id)) _
            (distinct-state r.0 a.lender_id v)
            λ _ _.
              let fingerprint = env.digest (create_request env a r.0 r.1.mobile_number) in
              Trace-read v (resolve_idempotent_result "create_loan" a.idempotency_key fingerprint) _
                (resolve-state "create_loan" a.idempotency_key fingerprint v)
                λ existing _. Trace-or_else v existing _ (
                  opening-Trace env a r.0 r.1.is_active r.2 fingerprint v (
                    resolve-pending env a.borrower_id a.borrower_mobile_number w r
                      (ap (λ x. x.0) found)))

-- Creating makes only allowed writes, and none where it fails.
pub create_loan-Effect : (env : Env) (a : CreateLoan) (w : World) → Effect w (create_loan env a w)
unfolding create_loan
create_loan-Effect env a w =
    atomic-Effect w (create_body env a) (create_body-Trace env a (record w { hooks = [] }))
