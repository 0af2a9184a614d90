-- ===== src/Loans/Reminders/Refinement.antt =====
-- Reminders make only the writes that the specification of Loans/History allows.
use nance_peer_lend_borrow_p.Prelude.{
  ℕ, suc, ◌≡◌, ap, ◌⊎◌, inl, inr, none, String, Bool, true, false, not, some, ◌∷◌, [], arith,
  select, if◌then◌else◌, ◌/◌, Option,
}
use nance_peer_lend_borrow_p.Platform.Table.{
  Table, get, update, IsKeyed, Rows, Rows-update, IsKeyed-select, Rows-select,
}
use nance_peer_lend_borrow_p.Platform.Order.{order_by, IsKeyed-order_by, Rows-order_by}
use nance_peer_lend_borrow_p.Platform.Errors.{ok}
use nance_peer_lend_borrow_p.Platform.Rows.Loans.{Loan, Repayment, overdue}
use nance_peer_lend_borrow_p.Platform.Rows.Notices.{Value, Payload}
use nance_peer_lend_borrow_p.Platform.World.{
  World, Env, queue_notification_on_commit, record_state_change, day, when,
}
use nance_peer_lend_borrow_p.Loans.Validation.{save_repayment, repayment_full_clean}
use nance_peer_lend_borrow_p.Loans.Validation.Soundness.{repayment_full_clean-IsSoundRepayment}
use nance_peer_lend_borrow_p.Loans.History.{core, one-Write, progresses, installment_event, done}
use nance_peer_lend_borrow_p.Loans.History.Trace.{
  Trace, SeqLe, Trace-same, Trace-of_ok, Trace-bind, Trace-missing, Trace-if, Effect, atomic-Effect,
}
use nance_peer_lend_borrow_p.Loans.RepaymentService.{has_ended, id_value}
use nance_peer_lend_borrow_p.Loans.Reminders.{
  is_late, precedes_in_plan, is_untouched, mark_overdue, remind, remind_all, reminders_body,
  send_overdue_reminders,
}

module _ (id : ℕ) (old : Repayment) (loan : Loan) (w : World) where
  abbrev late : Repayment
  late = record old { status = overdue; updated_at = w.clock }

  abbrev late_metadata : Payload
  late_metadata =
      ("action", Value.text "repayment.mark_overdue") ∷ ("loan_id", id_value old.loan_id) ∷ []

  mark-effect :
      (r : Unit {0})
      → (mark_overdue id old loan w).0 ≡ ok r
      → (repayment_full_clean w.db (some id) late ≡ true)
        × (core (mark_overdue id old loan w).1 ≡ record (core w) {
          repayments = update id late w.db.repayments;
          audit =
              installment_event id
                (Value.repayment_status old.status)
                overdue
                (some loan.borrower_id)
                late_metadata
              ∷ w.db.audit;
        })
  unfolding mark_overdue save_repayment record_state_change
  mark-effect r h = ground arith

  mark-seq : SeqLe (core w) (core (mark_overdue id old loan w).1)
  unfolding mark_overdue save_repayment record_state_change
  mark-seq = ground arith

  mark-Trace :
      get id w.db.repayments ≡ some old
      → is_untouched old ≡ true
      → Trace w (mark_overdue id old loan w)
  mark-Trace h untouched =
      Trace-of_ok w (mark_overdue id old loan w)
        (λ r e.
          let f = mark-effect r e in
          rw f.1 (
            one-Write (
              progresses id old late (some loan.borrower_id) late_metadata h (λ p. ground arith)
                (λ p. ground arith) (λ p. ground arith) (ground arith)
                (repayment_full_clean-IsSoundRepayment w.db (some id) late f.0))))
        mark-seq

queue-core :
    (u : Option ℕ) (title message kind key : String) (p : Payload) (w : World)
    → core (queue_notification_on_commit u title message kind key p w).1 ≡ core w
unfolding queue_notification_on_commit
queue-core u title message kind key p w = ground arith

queue-Trace :
    (u : Option ℕ) (title message kind key : String) (p : Payload) (w : World)
    → Trace w (queue_notification_on_commit u title message kind key p w)
queue-Trace u title message kind key p w =
    Trace-same w (queue_notification_on_commit u title message kind key p w)
      (queue-core u title message kind key p w)

module _ (env : Env) where
  module _ (id : ℕ) (old : Repayment) (loan : Loan) (w : World) where
    remind-Trace : get id w.db.repayments ≡ some old → Trace w (remind env id old loan w)
    unfolding remind
    remind-Trace h =
        Trace-bind w (when (is_untouched old) (mark_overdue id old loan)) _
          (Trace-if w (is_untouched old) _ _ (mark-Trace id old loan w h) (λ _. done))
          λ _ v _. queue-Trace _ _ _ _ _ _ v

    -- Only the installment's own row changes.
    remind-rows :
        ((remind env id old loan w).1.db.repayments ≡ w.db.repayments)
        ⊎ ((remind env id old loan w).1.db.repayments
            ≡ update id (late id old loan w) w.db.repayments)
    unfolding remind mark_overdue save_repayment record_state_change queue_notification_on_commit
    remind-rows = ground arith

    remind-keeps :
        (rs : Table Repayment)
        → get id w.db.repayments ≡ some old
        → get id rs ≡ none
        → Rows w.db.repayments rs
        → Rows (remind env id old loan w).1.db.repayments rs
    remind-keeps rs h n r = elim remind-rows [
      | inl same ↦ rw same r
      | inr changed ↦ rw changed (Rows-update id (late id old loan w) old w.db.repayments rs h n r)
    ]

  branch_keeps :
      (c : Bool) (id : ℕ) (old : Repayment) (loan : Loan) (w : World) (rs : Table Repayment)
      → get id w.db.repayments ≡ some old
      → get id rs ≡ none
      → Rows w.db.repayments rs
      → Rows (when c (remind env id old loan) w).1.db.repayments rs
  branch_keeps true id old loan w rs h n r = remind-keeps id old loan w rs h n r
  branch_keeps false id old loan w rs h n r = r

  remind_all-Trace :
      (rs : Table Repayment) (count : ℕ) (w : World)
      → IsKeyed rs
      → Rows w.db.repayments rs
      → Trace w (remind_all env rs count w)
  unfolding remind_all
  remind_all-Trace [] count w k r = done
  remind_all-Trace ((id, old) ∷ rs) count w k r =
      Trace-missing w (get old.loan_id w.db.loans) _ λ loan _.
        Trace-bind w (when (not (has_ended loan.status)) (remind env id old loan)) _
          (Trace-if w (not (has_ended loan.status)) _ _ (λ _. remind-Trace id old loan w r.0)
            (λ _. done))
          λ _ v e. remind_all-Trace rs (if has_ended loan.status then count else suc count) v k.1 (
            rw (← ap (λ x. x.1.db.repayments) e)
              (branch_keeps (not (has_ended loan.status)) id old loan w rs r.0 k.0 r.1))

  reminders_body-Trace : (w : World) → IsKeyed w.db.repayments → Trace w (reminders_body env w)
  unfolding reminders_body
  reminders_body-Trace w k =
      let late_ones = is_late (w.clock / day) in
      let rows = select late_ones w.db.repayments in
      remind_all-Trace (order_by precedes_in_plan rows) 0 w
        (IsKeyed-order_by precedes_in_plan rows (IsKeyed-select late_ones w.db.repayments k))
        (Rows-order_by precedes_in_plan w.db.repayments rows
          (Rows-select late_ones w.db.repayments k))

  -- Reminders make only allowed writes, and none where one fails.
  pub send_overdue_reminders-Effect :
      (w : World) → IsKeyed w.db.repayments → Effect w (send_overdue_reminders env w)
  unfolding send_overdue_reminders
  send_overdue_reminders-Effect w k =
      atomic-Effect w (reminders_body env) (reminders_body-Trace (record w { hooks = [] }) k)
