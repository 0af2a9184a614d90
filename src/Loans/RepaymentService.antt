-- ===== src/Loans/RepaymentService.antt =====
-- src/apps/loans/services/repayment_service.py: installments, payments, settlement, reminders.
pub mod Refinement
pub mod PaymentRefinement
pub mod Payment
use nance_peer_lend_borrow_p.Prelude.{
  ℕ, String, Bool, true, false, not, ◌&&◌, ◌||◌, Option, none, some, [], ◌∷◌, ◌==◌, any, first,
  if◌then◌else◌,
}
use nance_peer_lend_borrow_p.Prelude.Int.{ℤ, pos, ◌+ℤ◌, ◌-ℤ◌, ltb_ℤ, leb_ℤ, ◌==ℤ◌}
use nance_peer_lend_borrow_p.Prelude.Text.{strip, show, text_append}
use nance_peer_lend_borrow_p.Platform.Table.{Table, get}
use nance_peer_lend_borrow_p.Platform.Errors.{
  Result, ok, err, validation_error, invalid_operation, due_not_positive, installment_not_positive,
  loan_ended, installment_differs, invalid_repayment, payment_not_positive, loan_refused,
  already_paid, overpayment,
}
use nance_peer_lend_borrow_p.Platform.Rows.Loans.{
  Loan, LoanStatus, closed, rejected, cancelled, loan_status_eq, Repayment, RepaymentStatus,
  scheduled, partial, paid, repayment_status_eq,
}
use nance_peer_lend_borrow_p.Platform.Rows.Notices.{Value, Payload, EntityType, row_id, AuditEvent}
use nance_peer_lend_borrow_p.Platform.World.{
  M, pure, gets, when, or_missing, ◌>>=◌, ◌>>◌, forbid, atomic, queue_notification_on_commit,
  record_state_change, Env,
}
use nance_peer_lend_borrow_p.Loans.Validation.{
  save_loan, save_repayment, create_repayment_row, validation,
}
use nance_peer_lend_borrow_p.Payments.Reconciliation.{
  ReconciliationResult, match_repayment_transaction, reconciliation,
}

-- `status in {CANCELLED, REJECTED, CLOSED}`
abbrev pub has_ended : LoanStatus → Bool
has_ended s = loan_status_eq s cancelled || loan_status_eq s rejected || loan_status_eq s closed

abbrev pub id_value : ℕ → Value
id_value n = Value.num (pos n)

-- `payload={"loan_id": …, "repayment_id": …, "status": repayment.status}`
abbrev pub repayment_payload : ℕ → ℕ → Repayment → Payload
repayment_payload loan_id id r =
    ("loan_id", id_value loan_id)
    ∷ ("repayment_id", id_value id)
    ∷ ("status", Value.repayment_status r.status)
    ∷ []

abbrev pub repayment_event : ℕ → Value → RepaymentStatus → Option ℕ → String → ℕ → AuditEvent
repayment_event id from to actor action loan_id = record {
  entity_type = EntityType.repayment;
  entity_id = row_id id;
  field_name = "status";
  from_state = from;
  to_state = Value.repayment_status to;
  actor_id = actor;
  metadata = ("action", Value.text action) ∷ ("loan_id", id_value loan_id) ∷ [];
}

abbrev is_installment : ℕ → ℤ → ℕ × Repayment → Bool
is_installment loan_id number (_, r) = r.loan_id == loan_id && r.installment_number ==ℤ number

-- `_resolve_existing_installment`; the flag is `_created`.
resolve_existing_installment : ℕ × Repayment → ℕ → ℤ → M (Bool × ℕ × Repayment)
resolve_existing_installment (id, r) due_date amount_due = do
  forbid (not (r.due_date == due_date && r.amount_due ==ℤ amount_due)) installment_differs
  pure (false, id, r)

-- `except ValidationError`
abbrev translated : {A : Type 0} → Result A → Result A
translated (ok a) = ok a
translated (err validation_error) = err (invalid_operation invalid_repayment)
translated (err e) = err e

abbrev reword : {A : Type 0} → M A → M A
reword m w = let (r, w') = m w in (translated r, w')

abbrev new_repayment : ℕ → ℤ → ℕ → ℤ → ℕ → Repayment
new_repayment loan_id number due_date amount_due now = record {
  loan_id = loan_id;
  installment_number = number;
  due_date = due_date;
  amount_due = amount_due;
  amount_paid = pos 0;
  note = "";
  transaction_reference = "";
  matched_transaction = none;
  match_confidence = none;
  requires_manual_review = false;
  status = scheduled;
  paid_at = none;
  created_at = now;
  updated_at = now;
}

insert_new_installment : ℕ → Loan → ℤ → ℕ → ℤ → M (Bool × ℕ × Repayment)
insert_new_installment loan_id loan number due_date amount_due = do
  now ← gets (λ w. w.clock)
  let r = new_repayment loan_id number due_date amount_due now
  id ← reword (create_repayment_row r)
  record_state_change
      (repayment_event id Value.null r.status loan.lender_id "repayment.create" loan_id)
  queue_notification_on_commit (some loan.borrower_id) "Repayment Scheduled"
      "A new repayment installment has been created for your loan." "repayment_created"
      (text_append "repayment-created:" (show id)) (repayment_payload loan_id id r)
  pure (true, id, r)

-- The end of `create_repayment`, for the installment that was found.
find_or_create : Option (ℕ × Repayment) → ℕ → Loan → ℤ → ℕ → ℤ → M (Bool × ℕ × Repayment)
find_or_create (some e) loan_id loan number due_date amount_due =
    resolve_existing_installment e due_date amount_due
find_or_create none loan_id loan number due_date amount_due =
    insert_new_installment loan_id loan number due_date amount_due

-- The body of `create_repayment`, which runs in one transaction.
create_body : ℕ → ℤ → ℕ → ℤ → M (Bool × ℕ × Repayment)
create_body loan_id number due_date amount_due = do
  row ← gets (λ w. get loan_id w.db.loans)
  loan ← or_missing row
  forbid (leb_ℤ amount_due (pos 0)) due_not_positive
  forbid (leb_ℤ number (pos 0)) installment_not_positive
  forbid (has_ended loan.status) loan_ended
  existing ← gets (λ w. first (is_installment loan_id number) w.db.repayments)
  find_or_create existing loan_id loan number due_date amount_due

pub create_repayment : ℕ → ℤ → ℕ → ℤ → M (Bool × ℕ × Repayment)
create_repayment loan_id number due_date amount_due =
    atomic (create_body loan_id number due_date amount_due)

-- `paid_at or timezone.now()`
abbrev pub or_now : Option ℕ → ℕ → ℕ
or_now none now = now
or_now (some t) now = t

-- The amount, status, note and reference that `apply_payment` writes.
abbrev pub add_payment : Repayment → ℤ → ℕ → String → String → ℕ → Repayment
add_payment r amount paid_at note reference now =
    let total = r.amount_paid +ℤ amount in
    let full = total ==ℤ r.amount_due in
    record r {
      amount_paid = total;
      status = if full then paid else partial;
      paid_at = if full then some paid_at else none;
      note = strip note;
      transaction_reference = strip reference;
      updated_at = now;
    }

abbrev pub add_match : Repayment → ReconciliationResult → Repayment
add_match r m = record r {
  matched_transaction = m.matched_transaction;
  match_confidence = m.match_confidence;
  requires_manual_review = m.requires_manual_review;
}

-- `loan.repayments.exclude(status=PAID).exists()`
abbrev is_outstanding : ℕ → ℕ × Repayment → Bool
is_outstanding loan_id (_, r) = r.loan_id == loan_id && not (repayment_status_eq r.status paid)

pub has_outstanding : ℕ → Table Repayment → Bool
has_outstanding loan_id rs = any (is_outstanding loan_id) rs

-- The events and the message about a changed status.
report_payment : ℕ → ℕ → Loan → RepaymentStatus → Repayment → M (Unit {0})
report_payment id loan_id loan previous r = when (not (repayment_status_eq previous r.status)) do
  record_state_change (
      repayment_event id (Value.repayment_status previous) r.status (some loan.borrower_id)
        "repayment.apply_payment" loan_id)
  when (repayment_status_eq r.status paid) (
      queue_notification_on_commit loan.lender_id "Repayment Completed"
        "A repayment installment has been fully paid." "repayment_completed"
        (text_append "repayment-completed:" (show id)) (repayment_payload loan_id id r))

-- The write of a payment, with its event.
store_payment : ℕ → Loan → Repayment → Repayment → M (Unit {0})
store_payment id loan old r = do
  save_repayment id r
  report_payment id old.loan_id loan old.status r

module _ (env : Env) where
  close_loan : ℕ → Loan → M (Unit {0})
  close_loan loan_id old = do
    now ← gets (λ w. w.clock)
    let loan = record old { status = closed; closed_at = some now; updated_at = now }
    save_loan env loan_id loan
    record_state_change (record {
      entity_type = EntityType.loan;
      entity_id = row_id loan_id;
      field_name = "status";
      from_state = Value.loan_status old.status;
      to_state = Value.loan_status loan.status;
      actor_id = some loan.borrower_id;
      metadata = ("action", Value.text "loan.auto_close_after_repayment") ∷ [];
    })
    queue_notification_on_commit loan.lender_id "Loan Settled"
        "Loan has been fully settled and closed." "loan_settled"
        (text_append "loan-settled:" (show loan_id))
        (("loan_id", id_value loan_id) ∷ ("status", Value.loan_status loan.status) ∷ [])

  -- `_auto_settle_loan_if_fully_paid`
  auto_settle_loan_if_fully_paid : ℕ → Loan → M (Unit {0})
  auto_settle_loan_if_fully_paid loan_id loan = do
    outstanding ← gets (λ w. has_outstanding loan_id w.db.repayments)
    when (not outstanding && not (loan_status_eq loan.status closed)) (close_loan loan_id loan)

  -- The part of `apply_payment` behind its checks.
  record_payment : ℕ → Repayment → Loan → ℤ → Option ℕ → String → String → M (ℕ × Repayment)
  record_payment id old loan amount paid_at note reference = do
    now ← gets (λ w. w.clock)
    let when_paid = or_now paid_at now
    let r = add_payment old amount when_paid note reference now
    m ← gets (λ w.
        match_repayment_transaction env w.db loan.borrower_id amount when_paid
          r.transaction_reference)
    let matched = add_match r m
    store_payment id loan old matched
    auto_settle_loan_if_fully_paid old.loan_id loan
    pure (id, matched)

  -- The body of `apply_payment`, which runs in one transaction.
  payment_body : ℕ → ℤ → Option ℕ → String → String → M (ℕ × Repayment)
  payment_body id amount paid_at note reference = do
    forbid (leb_ℤ amount (pos 0)) payment_not_positive
    row ← gets (λ w. get id w.db.repayments)
    r ← or_missing row
    loan_row ← gets (λ w. get r.loan_id w.db.loans)
    loan ← or_missing loan_row
    forbid (loan_status_eq loan.status cancelled || loan_status_eq loan.status rejected)
        loan_refused
    forbid (repayment_status_eq r.status paid) already_paid
    forbid (ltb_ℤ (r.amount_due -ℤ r.amount_paid) amount) overpayment
    record_payment id r loan amount paid_at note reference

  pub apply_payment : ℕ → ℤ → Option ℕ → String → String → M (ℕ × Repayment)
  apply_payment id amount paid_at note reference =
      atomic (payment_body id amount paid_at note reference)

-- Opens the definitions of this file, to evaluate them.
unfoldable pub repayment_service : Unit {0}
unfolding create_repayment create_body insert_new_installment find_or_create
    resolve_existing_installment apply_payment payment_body record_payment store_payment
    report_payment has_outstanding auto_settle_loan_if_fully_paid close_loan validation
    reconciliation queue_notification_on_commit record_state_change strip show text_append
repayment_service = tt
