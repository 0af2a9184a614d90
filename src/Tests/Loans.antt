-- ===== src/Tests/Loans.antt =====
-- The guarantees of the loan services on a short history: a request is accepted, an installment is
-- created and paid in two parts, and the loan is settled.
use nance_peer_lend_borrow_p.Prelude.{ℕ, ◌≡◌, refl, inr, false, List, [], ◌∷◌, none, some}
use nance_peer_lend_borrow_p.Prelude.Int.{pos}
use nance_peer_lend_borrow_p.Platform.Table.{get}
use nance_peer_lend_borrow_p.Platform.Rows.Loans.{Loan, Repayment, active, closed, partial}
use nance_peer_lend_borrow_p.Platform.Rows.Notices.{Value, loan, repayment}
use nance_peer_lend_borrow_p.Platform.World.{World}
use nance_peer_lend_borrow_p.Loans.History.{core, IsSoundLoan}
use nance_peer_lend_borrow_p.Loans.History.Invariant.{Inv, Writes-Inv, last_state}
use nance_peer_lend_borrow_p.Loans.History.Life.{LoanAfter, RepaymentAfter}
use nance_peer_lend_borrow_p.Loans.Calls.{Call, run, loan_calls}
use nance_peer_lend_borrow_p.Loans.Calls.Guarantees.{
  run-Writes, run-IsHistory, IsHistory, run-IsSoundLoan, run_audit_trail, run-LoanAfter,
  run_final_status, run-RepaymentAfter,
}
use nance_peer_lend_borrow_p.Tests.Sample.{env, empty, request, empty-Inv}

abbrev opening_calls : List Call
opening_calls =
    Call.creates request
    ∷ Call.accepts 1 2 "k2"
    ∷ Call.installs 1 (pos 1) 15 (pos 10000)
    ∷ Call.pays 1 (pos 4000) none "" ""
    ∷ []

-- The second payment settles the loan; then nothing more is accepted.
abbrev closing_calls : List Call
closing_calls =
    Call.pays 1 (pos 6000) none "" ""
    ∷ Call.rejects 1 2 "late" "k3"
    ∷ Call.installs 1 (pos 2) 16 (pos 500)
    ∷ []

abbrev middle : World
middle = run env opening_calls empty

abbrev ending : World
ending = run env closing_calls middle

middle-Inv : Inv (core middle)
middle-Inv = Writes-Inv (run-Writes env opening_calls empty empty-Inv) empty-Inv

ending-Inv : Inv (core ending)
ending-Inv = Writes-Inv (run-Writes env closing_calls middle middle-Inv) middle-Inv

abbrev pub active_loan : Loan
active_loan = record {
  borrower_id = 2;
  lender_id = some 1;
  status = active;
  principal_amount = pos 10000;
  currency = "USD";
  interest_rate = pos 500;
  repayment_term_months = pos 12;
  starts_at = 10;
  ends_at = 20;
  purpose = "";
  source_transaction_reference = "";
  rejection_reason = "";
  submitted_at = some 1000;
  approved_at = some 1000;
  disbursed_at = none;
  closed_at = none;
  created_at = 1000;
  updated_at = 1000;
}

abbrev closed_loan : Loan
closed_loan = record active_loan { status = closed; closed_at = some 1000 }

abbrev part_paid : Repayment
part_paid = record {
  loan_id = 1;
  installment_number = pos 1;
  due_date = 15;
  amount_due = pos 10000;
  amount_paid = pos 4000;
  note = "";
  transaction_reference = "";
  matched_transaction = none;
  match_confidence = none;
  requires_manual_review = false;
  status = partial;
  paid_at = none;
  created_at = 1000;
  updated_at = 1000;
}

middle_loan : get 1 middle.db.loans ≡ some active_loan
unfolding loan_calls
middle_loan = refl

middle_repayment : get 1 middle.db.repayments ≡ some part_paid
unfolding loan_calls
middle_repayment = refl

ending_loan : get 1 ending.db.loans ≡ some closed_loan
unfolding loan_calls
ending_loan = refl

run-IsHistory_example : IsHistory env opening_calls empty
run-IsHistory_example = run-IsHistory env opening_calls empty empty-Inv

run-IsSoundLoan_example : IsSoundLoan active_loan
run-IsSoundLoan_example =
    run-IsSoundLoan env opening_calls empty 1 active_loan empty-Inv middle_loan

run_audit_trail_example :
    ((id : ℕ) (l : Loan)
      → get id middle.db.loans ≡ some l
      → last_state loan id middle.db.audit ≡ some (Value.loan_status l.status))
    × ((id : ℕ) (r : Repayment)
        → get id middle.db.repayments ≡ some r
        → last_state repayment id middle.db.audit ≡ some (Value.repayment_status r.status))
run_audit_trail_example = run_audit_trail env opening_calls empty empty-Inv

run-LoanAfter_example : (m : Loan) × (get 1 ending.db.loans ≡ some m) × LoanAfter active_loan m
run-LoanAfter_example = run-LoanAfter env closing_calls middle 1 active_loan middle-Inv middle_loan

run_final_status_example :
    (m : Loan) × (get 1 (run env opening_calls ending).db.loans ≡ some m) × (m.status ≡ closed)
run_final_status_example =
    run_final_status env opening_calls ending 1 closed_loan ending-Inv ending_loan (inr (inr refl))

run-RepaymentAfter_example :
    (s : Repayment) × (get 1 ending.db.repayments ≡ some s) × RepaymentAfter part_paid s
run-RepaymentAfter_example =
    run-RepaymentAfter env closing_calls middle 1 part_paid middle-Inv middle_repayment
