-- ===== src/Loans/RepaymentService/Payment.antt =====
-- What a payment does to its installment and to its loan (src/apps/loans/services/repayment_service.py).
use nance_peer_lend_borrow_p.Prelude.{
  ℕ, ◌≡◌, refl, String, Bool, true, false, not, ◌&&◌, ◌||◌, Option, none, some, [], arith,
  if◌then◌else◌, ap, ◌∙◌,
}
use nance_peer_lend_borrow_p.Prelude.Int.{
  ℤ, pos, ◌+ℤ◌, ◌-ℤ◌, ◌≤ℤ◌, leb_ℤ, ltb_ℤ, +ℤ_parts, -ℤ_parts, ◌==ℤ◌,
}
use nance_peer_lend_borrow_p.Platform.Table.{get, update, get-update}
use nance_peer_lend_borrow_p.Platform.Errors.{ok}
use nance_peer_lend_borrow_p.Platform.Rows.Loans.{
  Loan, closed, cancelled, rejected, loan_status_eq, Repayment, partial, paid, repayment_status_eq,
}
use nance_peer_lend_borrow_p.Platform.World.{
  Db, World, Env, queue_notification_on_commit, record_state_change,
}
use nance_peer_lend_borrow_p.Platform.Post.{
  Post, Post-missing, Post-raise_if, Post-if, Post-atomic, Post-bind, Post-ok, Post-weaken,
}
use nance_peer_lend_borrow_p.Loans.Validation.{save_repayment, save_loan}
use nance_peer_lend_borrow_p.Payments.Reconciliation.{match_repayment_transaction}
use nance_peer_lend_borrow_p.Loans.RepaymentService.{
  add_payment, add_match, or_now, report_payment, store_payment, close_loan,
  auto_settle_loan_if_fully_paid, record_payment, payment_body, apply_payment, has_outstanding,
}

abbrev pub is_closed : Option Loan → Bool
is_closed none = false
is_closed (some l) = loan_status_eq l.status closed

-- What a payment leaves behind: the installment, and its loan.
pub record IsPayment (id : ℕ) (old : Repayment) (amount : ℤ) (r : Repayment) (d d' : Db)
    : Type 0 where
  pub stored : d'.repayments ≡ update id r d.repayments
  pub adds : r.amount_paid ≡ old.amount_paid +ℤ amount
  pub covered : r.amount_paid ≤ℤ old.amount_due
  pub status : r.status ≡ (if r.amount_paid ==ℤ old.amount_due then paid else partial)
  pub open_loan : has_outstanding old.loan_id d'.repayments ≡ true → d'.loans ≡ d.loans
  pub settled_loan :
      has_outstanding old.loan_id d'.repayments ≡ false
      → is_closed (get old.loan_id d'.loans) ≡ true

module _ (id : ℕ) (loan : Loan) (old new : Repayment) (w : World) where
  store_payment-effect :
      Post
        (λ _ v. (v.db.repayments ≡ update id new w.db.repayments) × (v.db.loans ≡ w.db.loans))
        (store_payment id loan old new w)
  unfolding store_payment report_payment save_repayment record_state_change
      queue_notification_on_commit
  store_payment-effect = ground arith

module _ (env : Env) (loan_id : ℕ) (loan : Loan) (w : World) where
  abbrev settled : Loan
  settled = record loan { status = closed; closed_at = some w.clock; updated_at = w.clock }

  close_loan-effect :
      Post
        (λ _ v.
          (v.db.repayments ≡ w.db.repayments) × (v.db.loans ≡ update loan_id settled w.db.loans))
        (close_loan env loan_id loan w)
  unfolding close_loan save_loan record_state_change queue_notification_on_commit
  close_loan-effect = ground arith

  auto_settle-effect :
      get loan_id w.db.loans ≡ some loan
      → Post
          (λ _ v.
            (v.db.repayments ≡ w.db.repayments)
            × (has_outstanding loan_id v.db.repayments ≡ true → v.db.loans ≡ w.db.loans)
            × (has_outstanding loan_id v.db.repayments ≡ false
                → is_closed (get loan_id v.db.loans) ≡ true))
          (auto_settle_loan_if_fully_paid env loan_id loan w)
  unfolding auto_settle_loan_if_fully_paid
  auto_settle-effect h =
      Post-if _
        (not (has_outstanding loan_id w.db.repayments) && not (loan_status_eq loan.status closed)) _
        _ w
        (λ c.
          Post-weaken
            (λ _ v.
              (v.db.repayments ≡ w.db.repayments)
              × (v.db.loans ≡ update loan_id settled w.db.loans))
            _ (close_loan env loan_id loan w) close_loan-effect
            λ _ v e. (
              e.0,
              (λ o. ground (arith, c, ap (has_outstanding loan_id) e.0, o)),
              λ _. ground (arith, e.1, get-update loan_id loan_id settled loan w.db.loans h),
            ))
        (λ c. (refl, (λ _. refl), λ o. ground (arith, h, c, o)))

module _ (env : Env) (id : ℕ) (r : Repayment) (loan : Loan) (amount : ℤ) (at : Option ℕ)
    (note reference : String) (w : World) where
  record_payment-IsPayment :
      get id w.db.repayments ≡ some r
      → get r.loan_id w.db.loans ≡ some loan
      → ltb_ℤ (r.amount_due -ℤ r.amount_paid) amount ≡ false
      → Post
          (λ e v. (e.0 ≡ id) × IsPayment id r amount e.1 w.db v.db)
          (record_payment env id r loan amount at note reference w)
  unfolding record_payment
  record_payment-IsPayment h hl fits =
      let when_paid = or_now at w.clock in
      let r' = add_payment r amount when_paid note reference w.clock in
      let m =
        match_repayment_transaction env w.db loan.borrower_id amount when_paid
          r'.transaction_reference in
      let new = add_match r' m in
      Post-bind _ _ (store_payment id loan r new) _ w (store_payment-effect id loan r new w)
        λ _ v e.
          Post-bind _ _ (auto_settle_loan_if_fully_paid env r.loan_id loan) _ v
            (auto_settle-effect env r.loan_id loan v (ap (get r.loan_id) e.1 ∙ hl))
            λ _ u f. (
              refl,
              record {
                stored = f.0 ∙ e.0;
                adds = refl;
                covered =
                    ground
                      (arith, +ℤ_parts r.amount_paid amount, -ℤ_parts r.amount_due r.amount_paid);
                status = refl;
                open_loan = λ o. f.1 o ∙ e.1;
                settled_loan = f.2;
              },
            )

payment_body-IsPayment :
    (env : Env) (id : ℕ) (r : Repayment) (amount : ℤ) (at : Option ℕ) (note reference : String)
    (w : World)
    → get id w.db.repayments ≡ some r
    → Post
        (λ e v. (e.0 ≡ id) × IsPayment id r amount e.1 w.db v.db)
        (payment_body env id amount at note reference w)
unfolding payment_body
payment_body-IsPayment env id r amount at note reference w h =
    Post-raise_if _ (leb_ℤ amount (pos 0)) _ _ w λ _.
      Post-missing _ (get id w.db.repayments) _ w λ old k.
        Post-missing _ (get old.loan_id w.db.loans) _ w λ loan hl.
          Post-raise_if _
            (loan_status_eq loan.status cancelled || loan_status_eq loan.status rejected) _ _ w
            λ _. Post-raise_if _ (repayment_status_eq old.status paid) _ _ w λ _.
              Post-raise_if _ (ltb_ℤ (old.amount_due -ℤ old.amount_paid) amount) _ _ w λ fits.
                let e : r ≡ old = ground (arith, h, k) in
                rw e (record_payment-IsPayment env id old loan amount at note reference w k hl fits)

-- A payment that goes through adds its amount to the installment and to no other, never beyond what is
-- due; the installment is paid when that is reached and partial before. The loans stay as they are
-- while an installment of the loan is unpaid, and the loan is closed when none is.
pub apply_payment-IsPayment :
    (env : Env) (id : ℕ) (r s : Repayment) (amount : ℤ) (at : Option ℕ) (note reference : String)
    (w w' : World)
    → get id w.db.repayments ≡ some r
    → apply_payment env id amount at note reference w ≡ (ok (id, s), w')
    → IsPayment id r amount s w.db w'.db
unfolding apply_payment
apply_payment-IsPayment env id r s amount at note reference w w' h e =
    Post-ok (λ e v. IsPayment id r amount e.1 w.db v.db)
      (apply_payment env id amount at note reference w) (id, s) w'
      (Post-atomic (λ e v. IsPayment id r amount e.1 w.db v.db)
        (payment_body env id amount at note reference) w
        (Post-weaken (λ e v. (e.0 ≡ id) × IsPayment id r amount e.1 w.db v.db) _
          (payment_body env id amount at note reference (record w { hooks = [] }))
          (payment_body-IsPayment env id r amount at note reference (record w { hooks = [] }) h)
          λ a v f. f.1))
      e
