-- ===== src/Loans/Validation/Soundness.antt =====
-- What a row that passes `full_clean` satisfies.
use nance_peer_lend_borrow_p.Prelude.{
  ◌≡◌, ◌≢◌, ◌<◌, ◌&&◌, Bool, true, Option, ℕ, some, none, arith, not, opt_eq, ◌≤◌,
}
use nance_peer_lend_borrow_p.Prelude.Int.{ℤ, pos, ◌≤ℤ◌, leb_ℤ, eq_of_parts}
use nance_peer_lend_borrow_p.Platform.Rows.Loans.{Loan, Repayment, scheduled, paid, overdue, active}
use nance_peer_lend_borrow_p.Platform.World.{Db, Env}
use nance_peer_lend_borrow_p.Loans.History.{IsSoundLoan, IsSoundRepayment}
use nance_peer_lend_borrow_p.Loans.Validation.{
  loan_full_clean, loan_clean, loan_constraints, loan_fields_valid, repayment_full_clean,
  repayment_clean, repayment_fields_valid,
}

&&-left : (a b : Bool) → (a && b) ≡ true → a ≡ true
&&-left a b h = ground arith

&&-right : (a b : Bool) → (a && b) ≡ true → b ≡ true
&&-right a b h = ground arith

leb-le : (a b : ℤ) → leb_ℤ a b ≡ true → a ≤ℤ b
leb-le a b h = ground arith

parties-differ : (b : ℕ) (l : Option ℕ) → not (opt_eq (some b) l) ≡ true → l ≢ some b
parties-differ b l h = ground arith

constraints_sound :
    (l : Loan)
    → loan_constraints l ≡ true
    → (l.lender_id ≢ some l.borrower_id)
      × (l.starts_at < l.ends_at)
      × (pos 0 ≤ℤ l.interest_rate)
      × (l.interest_rate ≤ℤ pos 10000)
unfolding loan_constraints
constraints_sound l h = ground arith

fields-sound :
    (db : Db) (l : Loan)
    → loan_fields_valid db l ≡ true
    → (pos 1 ≤ℤ l.principal_amount)
      × (pos 1 ≤ℤ l.repayment_term_months)
      × (l.repayment_term_months ≤ℤ pos 360)
unfolding loan_fields_valid
fields-sound db l h = ground arith

pub loan_full_clean-IsSoundLoan :
    (env : Env) (db : Db) (l : Loan) → loan_full_clean env db l ≡ true → IsSoundLoan l
unfolding loan_full_clean
loan_full_clean-IsSoundLoan env db l h =
    let f = fields-sound db l (ground arith) in
    let c = constraints_sound l (ground arith) in
    record {
      principal = f.0;
      parties = c.0;
      period = c.1;
      rate_low = c.2;
      rate_high = c.3;
      months_low = f.1;
      months_high = f.2;
    }

clean_sound :
    (r : Repayment)
    → repayment_clean r ≡ true
    → (r.amount_paid ≤ℤ r.amount_due)
      × (r.status ≡ paid → r.amount_paid ≡ r.amount_due)
      × (r.status ≡ paid → r.paid_at ≢ none)
unfolding repayment_clean
clean_sound r h =
    (ground arith, λ e. ground (arith, eq_of_parts r.amount_paid r.amount_due), λ e. ground arith)

untouched_sound :
    (r : Repayment)
    → repayment_clean r ≡ true
    → pos 0 ≤ℤ r.amount_paid
    → (r.status ≡ scheduled → r.amount_paid ≡ pos 0) × (r.status ≡ overdue → r.amount_paid ≡ pos 0)
unfolding repayment_clean
untouched_sound r h p = (
  λ e. ground (arith, eq_of_parts r.amount_paid (pos 0)),
  λ e. ground (arith, eq_of_parts r.amount_paid (pos 0)),
)

amounts-sound :
    (db : Db) (r : Repayment)
    → repayment_fields_valid db r ≡ true
    → (pos 1 ≤ℤ r.amount_due) × (pos 0 ≤ℤ r.amount_paid)
unfolding repayment_fields_valid
amounts-sound db r h = ground arith

pub repayment_full_clean-IsSoundRepayment :
    (db : Db) (id : Option ℕ) (r : Repayment)
    → repayment_full_clean db id r ≡ true
    → IsSoundRepayment r
unfolding repayment_full_clean
repayment_full_clean-IsSoundRepayment db id r h =
    let f = amounts-sound db r (ground arith) in
    let hc : repayment_clean r ≡ true = ground arith in
    let c = clean_sound r hc in
    let u = untouched_sound r hc f.1 in
    record {
      due = f.0;
      paid_low = f.1;
      paid_high = c.0;
      paid_all = c.1;
      dated = c.2;
      untouched = u.0;
      untouched_late = u.1;
    }

-- Of the tables, `full_clean` of a loan reads the users alone.
pub loan_full_clean-users :
    (env : Env) (db db' : Db) (l : Loan)
    → db'.users ≡ db.users
    → loan_full_clean env db' l ≡ loan_full_clean env db l
unfolding loan_full_clean loan_fields_valid
loan_full_clean-users env db db' l e = ground (arith, e)

-- The row of a valid request stays valid when it is made active after its submission.
pub loan_full_clean-active :
    (env : Env) (db : Db) (l : Loan) (since t : ℕ)
    → loan_full_clean env db l ≡ true
    → l.submitted_at ≡ some since
    → l.disbursed_at ≡ none
    → since ≤ t
    → loan_full_clean env db
        (record l { status = active; approved_at = some t; rejection_reason = ""; updated_at = t })
      ≡ true
unfolding loan_full_clean loan_fields_valid loan_clean loan_constraints
loan_full_clean-active env db l since t h s d k = ground (arith, h, s, d)
