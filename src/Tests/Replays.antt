-- ===== src/Tests/Replays.antt =====
-- An acceptance of a new request, a repeated acceptance, another acceptance under its key, and an acceptance
-- while the queue is away.
use nance_peer_lend_borrow_p.Prelude.{
  ◌≡◌, refl, ◌∷◌, [], none, some, true, false, Bool, ◌==◌, if◌then◌else◌, arith,
}
use nance_peer_lend_borrow_p.Platform.Table.{get}
use nance_peer_lend_borrow_p.Platform.Errors.{ok, err, invalid_operation, key_reused, broker_error}
use nance_peer_lend_borrow_p.Platform.Rows.Loans.{Loan, pending_review}
use nance_peer_lend_borrow_p.Platform.World.{World, Env}
use nance_peer_lend_borrow_p.Platform.Rows.Notices.{Value, Payload}
use nance_peer_lend_borrow_p.Prelude.Int.{pos}
use nance_peer_lend_borrow_p.Loans.Calls.{Call, run, loan_calls}
use nance_peer_lend_borrow_p.Loans.LoanService.{accept_loan}
use nance_peer_lend_borrow_p.Loans.LoanService.Refinement.{accepted}
use nance_peer_lend_borrow_p.Loans.LoanService.Acceptance.{made_active, create_loan_then_accept}
use nance_peer_lend_borrow_p.Loans.LoanService.Replay.{
  IsAcceptable, accept_loan_again, accept_loan_other_request, accept_loan_broker_down,
}
use nance_peer_lend_borrow_p.Tests.Sample.{env, empty, request}

-- The request names the loan 2.
abbrev about_second : Payload → Bool
about_second ((_, Value.num (pos n)) ∷ _) = n == 2
about_second _ = false

abbrev requested : World
requested = run env (Call.creates request ∷ []) empty

abbrev waiting : Loan
waiting = record {
  borrower_id = 2;
  lender_id = some 1;
  status = pending_review;
  principal_amount = request.principal_amount;
  currency = "USD";
  interest_rate = request.interest_rate;
  repayment_term_months = request.repayment_term_months;
  starts_at = 10;
  ends_at = 20;
  purpose = "";
  source_transaction_reference = "";
  rejection_reason = "";
  submitted_at = some 1000;
  approved_at = none;
  disbursed_at = none;
  closed_at = none;
  created_at = 1000;
  updated_at = 1000;
}

waiting-IsAcceptable : IsAcceptable env 1 2 "k2" requested waiting
unfolding loan_calls
waiting-IsAcceptable = record {
  named = refl;
  fresh = refl;
  stored = refl;
  borrower = refl;
  waiting = refl;
  valid = refl;
  lender = refl;
}

create_loan_then_accept_example :
    ((accept_loan env 1 2 "k2" (record requested { clock = 5000; broker_up = true })).0
      ≡ ok (1, made_active waiting 5000))
    × (get 1
          (accept_loan env 1 2 "k2"
            (record requested { clock = 5000; broker_up = true })).1.db.loans
        ≡ some (made_active waiting 5000))
unfolding loan_calls
create_loan_then_accept_example =
    create_loan_then_accept env request empty requested 1 waiting 5000 "k2" tt refl refl refl
      (omega arith) refl refl

accept_loan_broker_down_example :
    ((accept_loan env 1 2 "k2" (record requested { broker_up = false })).0 ≡ err broker_error)
    × ((accept_loan env 1 2 "k2" (record requested { broker_up = false })).1.db ≡ requested.db)
    × ((accept_loan env 1 2 "k2"
          (record (accept_loan env 1 2 "k2" (record requested { broker_up = false })).1 {
            broker_up = true;
          })).0
        ≡ ok (1, waiting))
unfolding loan_calls
accept_loan_broker_down_example =
    accept_loan_broker_down env 1 2 "k2" (record requested { broker_up = false }) waiting
      (record {
        named = refl;
        fresh = refl;
        stored = refl;
        borrower = refl;
        waiting = refl;
        valid = refl;
        lender = refl;
      })
      refl

abbrev answered : World
answered = (accept_loan env 1 2 "k2" requested).1

accept_loan_again_example :
    accept_loan env 1 2 "k2" (record answered { clock = 5000 })
    ≡ (ok (1, accepted env 1 2 "k2" "" requested waiting), record answered { clock = 5000 })
unfolding loan_calls
accept_loan_again_example =
    accept_loan_again env 1 2 "k2" requested answered
      (1, accepted env 1 2 "k2" "" requested waiting) 5000 refl refl refl

-- A digest that tells requests apart.
abbrev telling : Env
telling = record env { digest = λ p. if about_second p then "second" else "first" }

abbrev answered_first : World
answered_first = (accept_loan telling 1 2 "k2" requested).1

accept_loan_other_request_example :
    accept_loan telling 2 2 "k2" (record answered_first { clock = 5000 })
    ≡ (err (invalid_operation key_reused), record answered_first { clock = 5000 })
unfolding loan_calls
accept_loan_other_request_example =
    accept_loan_other_request telling 1 2 "k2" requested answered_first
      (1, accepted telling 1 2 "k2" "" requested waiting) 5000 2 2 refl refl refl refl
