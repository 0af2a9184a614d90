-- ===== src/Loans/RepaymentService/Refinement.antt =====
-- Installments and payments make only the writes that the specification of Loans/History allows.
use nance_peer_lend_borrow_p.Prelude.{
  ℕ, ◌+◌, ◌≡◌, refl, Bool, true, Option, none, some, ◌∷◌, [], arith, first,
}
use nance_peer_lend_borrow_p.Prelude.Int.{ℤ, pos, leb_ℤ}
use nance_peer_lend_borrow_p.Platform.Table.{get, insert}
use nance_peer_lend_borrow_p.Platform.Errors.{ok}
use nance_peer_lend_borrow_p.Platform.Rows.Loans.{Loan, Repayment, scheduled}
use nance_peer_lend_borrow_p.Platform.Rows.Notices.{Value, Payload}
use nance_peer_lend_borrow_p.Platform.World.{
  World, queue_notification_on_commit, record_state_change,
}
use nance_peer_lend_borrow_p.Loans.Validation.{create_repayment_row, repayment_full_clean}
use nance_peer_lend_borrow_p.Loans.Validation.Soundness.{repayment_full_clean-IsSoundRepayment}
use nance_peer_lend_borrow_p.Loans.History.{core, one-Write, installs, installment_event}
use nance_peer_lend_borrow_p.Loans.History.Trace.{
  Trace, SeqLe, Trace-same, Trace-of_ok, Trace-missing, Trace-raise_if, Effect, atomic-Effect,
}
use nance_peer_lend_borrow_p.Loans.RepaymentService.{
  new_repayment, insert_new_installment, resolve_existing_installment, find_or_create, create_body,
  create_repayment, is_installment, has_ended, id_value,
}

module _ (loan_id : ℕ) (loan : Loan) (number : ℤ) (due_date : ℕ) (amount_due : ℤ) (w : World) where
  abbrev installed : Repayment
  installed = new_repayment loan_id number due_date amount_due w.clock

  abbrev installed_metadata : Payload
  installed_metadata =
      ("action", Value.text "repayment.create") ∷ ("loan_id", id_value loan_id) ∷ []

  install-effect :
      (r : Bool × ℕ × Repayment)
      → (insert_new_installment loan_id loan number due_date amount_due w).0 ≡ ok r
      → (repayment_full_clean w.db none installed ≡ true)
        × (core (insert_new_installment loan_id loan number due_date amount_due w).1
            ≡ record (core w) {
              repayments = insert w.seq.repayment installed w.db.repayments;
              audit =
                  installment_event w.seq.repayment Value.null scheduled loan.lender_id
                    installed_metadata
                  ∷ w.db.audit;
              next_repayment = w.seq.repayment + 1;
            })
  unfolding insert_new_installment create_repayment_row record_state_change
      queue_notification_on_commit
  install-effect r h = ground arith

  install-seq :
      SeqLe (core w) (core (insert_new_installment loan_id loan number due_date amount_due w).1)
  unfolding insert_new_installment create_repayment_row record_state_change
      queue_notification_on_commit
  install-seq = ground arith

  install-Trace : Trace w (insert_new_installment loan_id loan number due_date amount_due w)
  install-Trace =
      Trace-of_ok w (insert_new_installment loan_id loan number due_date amount_due w)
        (λ r e.
          let f = install-effect r e in
          rw f.1 (
            one-Write (
              installs installed loan.lender_id installed_metadata refl
                (repayment_full_clean-IsSoundRepayment w.db none installed f.0))))
        install-seq

  existing-core :
      (e : ℕ × Repayment) → core (resolve_existing_installment e due_date amount_due w).1 ≡ core w
  unfolding resolve_existing_installment
  existing-core e = ground arith

  find_or_create-Trace :
      (o : Option (ℕ × Repayment))
      → Trace w (find_or_create o loan_id loan number due_date amount_due w)
  unfolding find_or_create
  find_or_create-Trace none = install-Trace
  find_or_create-Trace (some e) =
      Trace-same w (resolve_existing_installment e due_date amount_due w) (existing-core e)

create_body-Trace :
    (loan_id : ℕ) (number : ℤ) (due_date : ℕ) (amount_due : ℤ) (w : World)
    → Trace w (create_body loan_id number due_date amount_due w)
unfolding create_body
create_body-Trace loan_id number due_date amount_due w =
    Trace-missing w (get loan_id w.db.loans) _ λ loan h.
      Trace-raise_if w (leb_ℤ amount_due (pos 0)) _ _ λ _.
        Trace-raise_if w (leb_ℤ number (pos 0)) _ _ λ _.
          Trace-raise_if w (has_ended loan.status) _ _ λ _.
            find_or_create-Trace loan_id loan number due_date amount_due w
              (first (is_installment loan_id number) w.db.repayments)

-- Creating an installment makes only allowed writes, and none where it fails.
pub create_repayment-Effect :
    (loan_id : ℕ) (number : ℤ) (due_date : ℕ) (amount_due : ℤ) (w : World)
    → Effect w (create_repayment loan_id number due_date amount_due w)
unfolding create_repayment
create_repayment-Effect loan_id number due_date amount_due w =
    atomic-Effect w (create_body loan_id number due_date amount_due)
      (create_body-Trace loan_id number due_date amount_due (record w { hooks = [] }))
