-- ===== src/Loans/RepaymentService/PaymentRefinement.antt =====
-- Payments, and the closing of a loan that is paid, make only the writes that the specification of Loans/History allows.
use nance_peer_lend_borrow_p.Prelude.{
  ℕ, ◌≡◌, ◌≢◌, refl, ap, sym, ◌∙◌, String, true, false, not, ◌&&◌, ◌||◌, Option, some, ◌∷◌, [],
  arith, ◌⊎◌, inl, inr, Bool-cases, if◌then◌else◌,
}
use nance_peer_lend_borrow_p.Prelude.Int.{ℤ, pos, ◌-ℤ◌, leb_ℤ, ltb_ℤ, +ℤ_parts}
use nance_peer_lend_borrow_p.Platform.Table.{get, update}
use nance_peer_lend_borrow_p.Platform.Errors.{ok}
use nance_peer_lend_borrow_p.Platform.Rows.Loans.{
  Loan, LoanStatus, closed, cancelled, rejected, loan_status_eq, Repayment, RepaymentStatus,
  partial, paid, repayment_status_eq,
}
use nance_peer_lend_borrow_p.Platform.Rows.Notices.{Value, Payload}
use nance_peer_lend_borrow_p.Platform.World.{
  World, Env, queue_notification_on_commit, record_state_change,
}
use nance_peer_lend_borrow_p.Loans.Validation.{
  save_repayment, repayment_full_clean, save_loan, loan_full_clean,
}
use nance_peer_lend_borrow_p.Loans.Validation.Soundness.{
  repayment_full_clean-IsSoundRepayment, loan_full_clean-IsSoundLoan,
}
use nance_peer_lend_borrow_p.Loans.History.{
  Core, core, Writes, one-Write, progresses, adds, moves, installment_event, loan_event, LoanMove,
  SameInstallment, IsPartPayment, done,
}
use nance_peer_lend_borrow_p.Loans.History.Trace.{
  Trace, SeqLe, Trace-of_ok, Trace-bind, Trace-missing, Trace-raise_if, Trace-if, Effect,
  atomic-Effect,
}
use nance_peer_lend_borrow_p.Payments.Reconciliation.{
  ReconciliationResult, match_repayment_transaction,
}
use nance_peer_lend_borrow_p.Loans.RepaymentService.{
  add_payment, add_match, or_now, report_payment, store_payment, close_loan,
  auto_settle_loan_if_fully_paid, record_payment, payment_body, apply_payment, id_value,
  has_outstanding,
}

-- A payment that is positive and covered leaves the terms, and adds to what is paid.
payment-SameInstallment :
    (r : Repayment) (amount : ℤ) (at : ℕ) (note reference : String) (now : ℕ)
    (m : ReconciliationResult)
    → leb_ℤ amount (pos 0) ≡ false
    → SameInstallment r (add_match (add_payment r amount at note reference now) m)
payment-SameInstallment r amount at note reference now m h = record {
  loan = refl;
  number = refl;
  due_on = refl;
  due = refl;
  grows = ground (arith, +ℤ_parts r.amount_paid amount);
}

payment-IsPartPayment :
    (r : Repayment) (amount : ℤ) (at : ℕ) (note reference : String) (now : ℕ)
    (m : ReconciliationResult)
    → leb_ℤ amount (pos 0) ≡ false
    → (add_payment r amount at note reference now).status ≡ partial
    → IsPartPayment r (add_match (add_payment r amount at note reference now) m)
payment-IsPartPayment r amount at note reference now m h part = record {
  added = λ e. ground (arith, +ℤ_parts r.amount_paid amount);
  left = λ e. ground arith;
}

payment-status :
    (r : Repayment) (amount : ℤ) (at : ℕ) (note reference : String) (now : ℕ)
    → ((add_payment r amount at note reference now).status ≡ paid)
      ⊎ ((add_payment r amount at note reference now).status ≡ partial)
payment-status r amount at note reference now = ground arith

both-partial :
    (a b : RepaymentStatus)
    → repayment_status_eq a b ≡ true
    → repayment_status_eq a paid ≡ false
    → ((b ≡ paid) ⊎ (b ≡ partial))
    → (a ≡ partial) × (b ≡ partial)
both-partial a b e u k = ground arith

status-differ : (a b : RepaymentStatus) → repayment_status_eq a b ≡ false → a ≢ b
status-differ a b h e = ground arith

module _ (id : ℕ) (loan : Loan) (old new : Repayment) (w : World) where
  abbrev payment_metadata : Payload
  payment_metadata =
      ("action", Value.text "repayment.apply_payment") ∷ ("loan_id", id_value old.loan_id) ∷ []

  abbrev stored : Core
  stored = record (core w) { repayments = update id new w.db.repayments }

  store-effect :
      (r : Unit {0})
      → (store_payment id loan old new w).0 ≡ ok r
      → (repayment_full_clean w.db (some id) new ≡ true)
        × (core (store_payment id loan old new w).1 ≡ (
            if repayment_status_eq old.status new.status then stored else record stored {
              audit =
                  installment_event id
                    (Value.repayment_status old.status)
                    new.status
                    (some loan.borrower_id)
                    payment_metadata
                  ∷ w.db.audit;
            }))
  unfolding store_payment report_payment save_repayment record_state_change
      queue_notification_on_commit
  store-effect r h = ground arith

  store-rest :
      ((store_payment id loan old new w).1.db.loans ≡ w.db.loans)
      × SeqLe (core w) (core (store_payment id loan old new w).1)
  unfolding store_payment report_payment save_repayment record_state_change
      queue_notification_on_commit
  store-rest = ground arith

  store-Writes :
      get id w.db.repayments ≡ some old
      → repayment_status_eq old.status paid ≡ false
      → ((new.status ≡ paid) ⊎ (new.status ≡ partial))
      → (new.status ≡ partial → IsPartPayment old new)
      → SameInstallment old new
      → (r : Unit {0}) → (store_payment id loan old new w).0 ≡ ok r
      → Writes (core w) (core (store_payment id loan old new w).1)
  store-Writes h unpaid kind part same r e =
      let f = store-effect r e in
      let s = repayment_full_clean-IsSoundRepayment w.db (some id) new f.0 in
      elim (Bool-cases (repayment_status_eq old.status new.status)) [
        | inl equal ↦
            rw (f.1, equal)
              (one-Write (
                adds id old new h (both-partial old.status new.status equal unpaid kind).0
                  (both-partial old.status new.status equal unpaid kind).1
                  (part (both-partial old.status new.status equal unpaid kind).1) same s))
        | inr differ ↦
            rw (f.1, differ)
              (one-Write (
                progresses id old new (some loan.borrower_id) payment_metadata h (λ p. ground arith)
                  (λ p. status-differ old.status new.status differ p) part same s))
      ]

  store-Trace :
      get id w.db.repayments ≡ some old
      → repayment_status_eq old.status paid ≡ false
      → ((new.status ≡ paid) ⊎ (new.status ≡ partial))
      → (new.status ≡ partial → IsPartPayment old new)
      → SameInstallment old new
      → Trace w (store_payment id loan old new w)
  store-Trace h unpaid kind part same =
      Trace-of_ok w (store_payment id loan old new w) (store-Writes h unpaid kind part same)
        store-rest.1

settle-LoanMove :
    (s : LoanStatus)
    → (loan_status_eq s cancelled || loan_status_eq s rejected) ≡ false
    → loan_status_eq s closed ≡ false
    → LoanMove s closed
settle-LoanMove s h k =
    LoanMove.settle s (λ e. ground arith) (λ e. ground arith) (λ e. ground arith)

module _ (env : Env) (loan_id : ℕ) (old : Loan) (w : World) where
  abbrev settled : Loan
  settled = record old { status = closed; closed_at = some w.clock; updated_at = w.clock }

  abbrev settled_metadata : Payload
  settled_metadata = ("action", Value.text "loan.auto_close_after_repayment") ∷ []

  close-effect :
      (r : Unit {0})
      → (close_loan env loan_id old w).0 ≡ ok r
      → (loan_full_clean env w.db settled ≡ true)
        × (core (close_loan env loan_id old w).1 ≡ record (core w) {
          loans = update loan_id settled w.db.loans;
          audit =
              loan_event loan_id
                (Value.loan_status old.status)
                closed
                (some old.borrower_id)
                settled_metadata
              ∷ w.db.audit;
        })
  unfolding close_loan save_loan record_state_change queue_notification_on_commit
  close-effect r h = ground arith

  close-seq : SeqLe (core w) (core (close_loan env loan_id old w).1)
  unfolding close_loan save_loan record_state_change queue_notification_on_commit
  close-seq = ground arith

  close-Trace :
      get loan_id w.db.loans ≡ some old
      → LoanMove old.status closed
      → Trace w (close_loan env loan_id old w)
  close-Trace h m =
      Trace-of_ok w (close_loan env loan_id old w)
        (λ r e.
          let f = close-effect r e in
          rw f.1 (
            one-Write (
              moves loan_id old settled (some old.borrower_id) settled_metadata h m (ground arith)
                (loan_full_clean-IsSoundLoan env w.db settled f.0))))
        close-seq

  settle-Trace :
      get loan_id w.db.loans ≡ some old
      → (loan_status_eq old.status cancelled || loan_status_eq old.status rejected) ≡ false
      → Trace w (auto_settle_loan_if_fully_paid env loan_id old w)
  unfolding auto_settle_loan_if_fully_paid
  settle-Trace h open_loan =
      Trace-if w
        (not (has_outstanding loan_id w.db.repayments) && not (loan_status_eq old.status closed)) _
        _ (λ c. close-Trace h (settle-LoanMove old.status open_loan (ground arith))) (λ _. done)

module _ (env : Env) (id : ℕ) (r : Repayment) (loan : Loan) (amount : ℤ) (at : Option ℕ)
    (note reference : String) (w : World) where
  record-Trace :
      get id w.db.repayments ≡ some r
      → get r.loan_id w.db.loans ≡ some loan
      → leb_ℤ amount (pos 0) ≡ false
      → (loan_status_eq loan.status cancelled || loan_status_eq loan.status rejected) ≡ false
      → repayment_status_eq r.status paid ≡ false
      → Trace w (record_payment env id r loan amount at note reference w)
  unfolding record_payment
  record-Trace h hl positive open_loan unpaid =
      let when_paid = or_now at w.clock in
      let r' = add_payment r amount when_paid note reference w.clock in
      let m =
        match_repayment_transaction env w.db loan.borrower_id amount when_paid
          r'.transaction_reference in
      let new = add_match r' m in
      Trace-bind w (store_payment id loan r new) _
        (store-Trace id loan r new w h unpaid
          (payment-status r amount when_paid note reference w.clock)
          (payment-IsPartPayment r amount when_paid note reference w.clock m positive)
          (payment-SameInstallment r amount when_paid note reference w.clock m positive))
        λ _ v e.
          let loans : v.db.loans ≡ w.db.loans =
            ap (λ x. x.1.db.loans) (sym e) ∙ (store-rest id loan r new w).0 in
          Trace-bind v (auto_settle_loan_if_fully_paid env r.loan_id loan) _
            (settle-Trace env r.loan_id loan v (ap (get r.loan_id) loans ∙ hl) open_loan)
            λ _ u _. done

payment_body-Trace :
    (env : Env) (id : ℕ) (amount : ℤ) (at : Option ℕ) (note reference : String) (w : World)
    → Trace w (payment_body env id amount at note reference w)
unfolding payment_body
payment_body-Trace env id amount at note reference w =
    Trace-raise_if w (leb_ℤ amount (pos 0)) _ _ λ positive.
      Trace-missing w (get id w.db.repayments) _ λ r h.
        Trace-missing w (get r.loan_id w.db.loans) _ λ loan hl.
          Trace-raise_if w
            (loan_status_eq loan.status cancelled || loan_status_eq loan.status rejected) _ _
            λ open_loan. Trace-raise_if w (repayment_status_eq r.status paid) _ _ λ unpaid.
              Trace-raise_if w (ltb_ℤ (r.amount_due -ℤ r.amount_paid) amount) _ _ λ _.
                record-Trace env id r loan amount at note reference w h hl positive open_loan unpaid

-- A payment makes only allowed writes, and none where it fails.
pub apply_payment-Effect :
    (env : Env) (id : ℕ) (amount : ℤ) (at : Option ℕ) (note reference : String) (w : World)
    → Effect w (apply_payment env id amount at note reference w)
unfolding apply_payment
apply_payment-Effect env id amount at note reference w =
    atomic-Effect w (payment_body env id amount at note reference)
      (payment_body-Trace env id amount at note reference (record w { hooks = [] }))
