-- ===== src/Loans/Validation.antt =====
-- `full_clean` of the models Loan and Repayment (src/apps/loans/models.py), which `save` calls: the
-- validators of the fields, `clean`, and the check constraints. Then `save` and `objects.create`.
pub mod Soundness
use nance_peer_lend_borrow_p.Prelude.{
  ℕ, ◌+◌, ◌^◌, Bool, true, false, not, ◌&&◌, ◌||◌, Option, none, some, ltb, leb, ◌==◌, opt_eq,
  is_some, any, str_eq,
}
use nance_peer_lend_borrow_p.Prelude.Int.{ℤ, pos, pos_part, neg_part, ltb_ℤ, leb_ℤ, ◌==ℤ◌}
use nance_peer_lend_borrow_p.Prelude.Text.{is_empty, text_len}
use nance_peer_lend_borrow_p.Platform.Table.{get, insert, update}
use nance_peer_lend_borrow_p.Platform.Errors.{validation_error, ok}
use nance_peer_lend_borrow_p.Platform.Rows.Loans.{
  Loan, Repayment, scheduled, paid, overdue, repayment_status_eq,
}
use nance_peer_lend_borrow_p.Platform.World.{
  Db, M, gets, ◌>>=◌, ◌>>◌, raise_if, write, is_truthy, Env,
}

-- A decimal with `digits` digits, two of them behind the point, in hundredths.
abbrev fits_digits : ℕ → ℤ → Bool
fits_digits digits a = ltb (pos_part a + neg_part a) (10 ^ digits)

-- `a and b and b < a` of two times: the later step stands before the earlier one.
abbrev precedes : Option ℕ → Option ℕ → Bool
precedes (some a) (some b) = ltb a b
precedes _ _ = false

-- A nullable foreign key names a row that exists.
abbrev user_known : Db → Option ℕ → Bool
user_known db none = true
user_known db (some u) = is_some (get u db.users)

abbrev transaction_known : Db → Option ℕ → Bool
transaction_known db none = true
transaction_known db (some t) = is_some (get t db.transactions)

-- Validators and `blank`, `null`, `max_length` of the fields, and the users that they refer to.
loan_fields_valid : Db → Loan → Bool
loan_fields_valid db l =
    is_some (get l.borrower_id db.users)
    && user_known db l.lender_id
    && leb_ℤ (pos 1) l.principal_amount
    && fits_digits 12 l.principal_amount
    && not (is_empty l.currency)
    && leb (text_len l.currency) 3
    && leb_ℤ (pos 0) l.interest_rate
    && leb_ℤ l.interest_rate (pos 10000)
    && leb_ℤ (pos 1) l.repayment_term_months
    && leb_ℤ l.repayment_term_months (pos 360)
    && leb (text_len l.source_transaction_reference) 255

module _ (env : Env) where
  -- `Loan.clean` finds no error.
  loan_clean : Loan → Bool
  loan_clean l =
      (is_empty l.currency || str_eq l.currency (env.upper l.currency))
      && not (is_truthy l.lender_id && opt_eq (some l.borrower_id) l.lender_id)
      && ltb l.starts_at l.ends_at
      && not (precedes l.approved_at l.submitted_at)
      && not (precedes l.disbursed_at l.approved_at)
      && not (precedes l.closed_at l.disbursed_at)

-- The check constraints of `Loan.Meta`.
loan_constraints : Loan → Bool
loan_constraints l =
    ltb_ℤ (pos 0) l.principal_amount
    && (leb_ℤ (pos 0) l.interest_rate && leb_ℤ l.interest_rate (pos 10000))
    && leb_ℤ (pos 1) l.repayment_term_months
    && ltb l.starts_at l.ends_at
    && not (opt_eq (some l.borrower_id) l.lender_id)

pub loan_full_clean : Env → Db → Loan → Bool
loan_full_clean env db l = loan_fields_valid db l && loan_clean env l && loan_constraints l

-- `Loan.save` of a row that exists
unfoldable pub save_loan : Env → ℕ → Loan → M (Unit {0})
save_loan env id l = do
  db ← gets (λ w. w.db)
  raise_if (not (loan_full_clean env db l)) validation_error
  write (λ db. record db { loans = update id l db.loans })

-- The database takes the key from the sequence.
abbrev insert_loan : Loan → M ℕ
insert_loan l w =
    let id = w.seq.loan in
    (
      ok id,
      record w {
        db = record w.db { loans = insert id l w.db.loans };
        seq = record w.seq { loan = id + 1 };
      },
    )

-- `Loan.objects.create`: the new row's key
unfoldable pub create_loan_row : Env → Loan → M ℕ
create_loan_row env l = do
  db ← gets (λ w. w.db)
  raise_if (not (loan_full_clean env db l)) validation_error
  insert_loan l

-- `Repayment.clean` finds no error.
repayment_clean : Repayment → Bool
repayment_clean r =
    leb_ℤ r.amount_paid r.amount_due
    && not (repayment_status_eq r.status paid && not (r.amount_paid ==ℤ r.amount_due))
    && not (repayment_status_eq r.status paid && not (is_some r.paid_at))
    && not (
        (repayment_status_eq r.status scheduled || repayment_status_eq r.status overdue)
        && ltb_ℤ (pos 0) r.amount_paid)

-- Validators of the fields, the check constraints, and the rows that the fields refer to.
repayment_fields_valid : Db → Repayment → Bool
repayment_fields_valid db r =
    is_some (get r.loan_id db.loans)
    && leb_ℤ (pos 0) r.installment_number
    && leb_ℤ r.installment_number (pos 2147483647)
    && ltb_ℤ (pos 0) r.amount_due
    && fits_digits 12 r.amount_due
    && leb_ℤ (pos 0) r.amount_paid
    && fits_digits 12 r.amount_paid
    && leb (text_len r.transaction_reference) 255
    && transaction_known db r.matched_transaction

-- Another row than the one under `id` holds the loan and installment of `r`.
abbrev same_installment : Option ℕ → Repayment → ℕ × Repayment → Bool
same_installment id r (j, s) =
    s.loan_id == r.loan_id
    && s.installment_number ==ℤ r.installment_number
    && not (opt_eq (some j) id)

-- `repayment_unique_installment_per_loan`, for a row under the key `id`
installment_free : Db → Option ℕ → Repayment → Bool
installment_free db id r = not (any (same_installment id r) db.repayments)

pub repayment_full_clean : Db → Option ℕ → Repayment → Bool
repayment_full_clean db id r =
    repayment_fields_valid db r && repayment_clean r && installment_free db id r

-- `Repayment.save` of a row that exists
unfoldable pub save_repayment : ℕ → Repayment → M (Unit {0})
save_repayment id r = do
  db ← gets (λ w. w.db)
  raise_if (not (repayment_full_clean db (some id) r)) validation_error
  write (λ db. record db { repayments = update id r db.repayments })

abbrev insert_repayment : Repayment → M ℕ
insert_repayment r w =
    let id = w.seq.repayment in
    (
      ok id,
      record w {
        db = record w.db { repayments = insert id r w.db.repayments };
        seq = record w.seq { repayment = id + 1 };
      },
    )

-- `Repayment.objects.create`: the new row's key
unfoldable pub create_repayment_row : Repayment → M ℕ
create_repayment_row r = do
  db ← gets (λ w. w.db)
  raise_if (not (repayment_full_clean db none r)) validation_error
  insert_repayment r

-- Opens the definitions of this file, to evaluate them.
unfoldable pub validation : Unit {0}
unfolding loan_full_clean loan_fields_valid loan_clean loan_constraints save_loan create_loan_row
    repayment_full_clean repayment_clean repayment_fields_valid installment_free save_repayment
    create_repayment_row
validation = tt
