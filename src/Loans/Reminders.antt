-- ===== src/Loans/Reminders.antt =====
-- src/apps/loans/services/repayment_service.py, `send_overdue_reminders`: late installments are marked,
-- and their borrowers are told. Time is read in UTC, the project's time zone.
pub mod Refinement
use nance_peer_lend_borrow_p.Prelude.{
  ℕ, suc, ◌/◌, Bool, not, ◌&&◌, ◌||◌, ◌==◌, some, [], ◌∷◌, ltb, select, if◌then◌else◌,
}
use nance_peer_lend_borrow_p.Prelude.Int.{pos, ◌==ℤ◌, leb_ℤ}
use nance_peer_lend_borrow_p.Prelude.Text.{strip, show, text_append}
use nance_peer_lend_borrow_p.Platform.Table.{Table, get}
use nance_peer_lend_borrow_p.Platform.Order.{order_by}
use nance_peer_lend_borrow_p.Platform.Rows.Loans.{
  Loan, Repayment, scheduled, paid, overdue, repayment_status_eq,
}
use nance_peer_lend_borrow_p.Platform.Rows.Notices.{Value}
use nance_peer_lend_borrow_p.Platform.World.{
  M, pure, gets, when, or_missing, ◌>>=◌, ◌>>◌, atomic, day, queue_notification_on_commit,
  record_state_change, Env,
}
use nance_peer_lend_borrow_p.Loans.Validation.{save_repayment, validation}
use nance_peer_lend_borrow_p.Loans.RepaymentService.{has_ended, repayment_event, repayment_payload}

-- `due_date < today`, and not paid
pub is_late : ℕ → ℕ × Repayment → Bool
is_late today (_, r) = ltb r.due_date today && not (repayment_status_eq r.status paid)

-- `Meta.ordering` of `Repayment`: by the loan, and by the installment's number in it
abbrev pub precedes_in_plan : Repayment → Repayment → Bool
precedes_in_plan r s =
    ltb r.loan_id s.loan_id
    || (r.loan_id == s.loan_id && leb_ℤ r.installment_number s.installment_number)

mark_overdue : ℕ → Repayment → Loan → M (Unit {0})
mark_overdue id old loan = do
  now ← gets (λ w. w.clock)
  let r = record old { status = overdue; updated_at = now }
  save_repayment id r
  record_state_change (
      repayment_event id (Value.repayment_status old.status) r.status (some loan.borrower_id)
        "repayment.mark_overdue" old.loan_id)

-- `amount_paid == 0 and status == SCHEDULED`
abbrev pub is_untouched : Repayment → Bool
is_untouched r = r.amount_paid ==ℤ pos 0 && repayment_status_eq r.status scheduled

module _ (env : Env) where
  -- The body of the loop, for a loan that has not ended.
  remind : ℕ → Repayment → Loan → M (Unit {0})
  remind id r loan = do
    when (is_untouched r) (mark_overdue id r loan)
    queue_notification_on_commit (some loan.borrower_id) "Repayment Overdue"
        "A repayment installment is overdue." "repayment_overdue"
        (text_append "repayment-overdue:"
          (text_append (show id) (text_append ":" (env.isoformat r.due_date))))
        (repayment_payload r.loan_id id
          (record r { status = if is_untouched r then overdue else r.status }))

  -- The loop over the late repayments, with their loans; the number of reminders.
  remind_all : Table Repayment → ℕ → M ℕ
  remind_all [] count = pure count
  remind_all ((id, r) ∷ rs) count = do
    loan_row ← gets (λ w. get r.loan_id w.db.loans)
    loan ← or_missing loan_row
    when (not (has_ended loan.status)) (remind id r loan)
    remind_all rs (if has_ended loan.status then count else suc count)

  -- The body of `send_overdue_reminders`, which runs in one transaction.
  reminders_body : M ℕ
  reminders_body = do
    today ← gets (λ w. w.clock / day)
    late ← gets (λ w. order_by precedes_in_plan (select (is_late today) w.db.repayments))
    remind_all late 0

  pub send_overdue_reminders : M ℕ
  send_overdue_reminders = atomic reminders_body

-- Opens the definitions of this file, to evaluate them.
unfoldable pub reminders : Unit {0}
unfolding send_overdue_reminders reminders_body remind_all remind mark_overdue is_late validation
    queue_notification_on_commit record_state_change strip show text_append
reminders = tt
