-- ===== src/Loans/Calls.antt =====
-- The calls of the loan services in any order, with the time that passes between them.
pub mod Guarantees
use nance_peer_lend_borrow_p.Prelude.{ℕ, ◌+◌, String, Bool, Option, List, [], ◌∷◌}
use nance_peer_lend_borrow_p.Prelude.Int.{ℤ, ◌+ℤ◌, ◌-ℤ◌}
use nance_peer_lend_borrow_p.Prelude.Text.{text_len}
use nance_peer_lend_borrow_p.Platform.World.{World, Env}
use nance_peer_lend_borrow_p.Loans.LoanService.{
  CreateLoan, create_loan, accept_loan, reject_loan, cancel_loan, loan_service,
}
use nance_peer_lend_borrow_p.Loans.RepaymentService.{
  create_repayment, apply_payment, repayment_service,
}
use nance_peer_lend_borrow_p.Loans.Reminders.{send_overdue_reminders, reminders}

-- The endpoints of src/apps/loans/api/views.py that write, the daily task of src/apps/loans/tasks.py,
-- and what the environment does.
pub data Call : Type 0 where
  creates : CreateLoan → Call
  accepts : ℕ → ℕ → String → Call
  rejects : ℕ → ℕ → String → String → Call
  cancels : ℕ → ℕ → String → Call
  installs : ℕ → ℤ → ℕ → ℤ → Call
  pays : ℕ → ℤ → Option ℕ → String → String → Call
  reminds : Call
  elapses : ℕ → Call
  broker : Bool → Call

pub step : Env → Call → World → World
step env (creates a) w = (create_loan env a w).1
step env (accepts loan_id user_id key) w = (accept_loan env loan_id user_id key w).1
step env (rejects loan_id user_id reason key) w = (reject_loan env loan_id user_id reason key w).1
step env (cancels loan_id user_id key) w = (cancel_loan env loan_id user_id key w).1
step env (installs loan_id number due_date amount) w =
    (create_repayment loan_id number due_date amount w).1
step env (pays id amount at note reference) w = (apply_payment env id amount at note reference w).1
step env reminds w = (send_overdue_reminders env w).1
step env (elapses t) w = record w { clock = w.clock + t }
step env (broker up) w = record w { broker_up = up }

pub run : Env → List Call → World → World
unfolding step
run env [] w = w
run env (c ∷ cs) w = run env cs (step env c w)

-- Opens the loan services, to evaluate them.
unfoldable pub loan_calls : Unit {0}
unfolding run step loan_service repayment_service reminders text_len ◌+ℤ◌ ◌-ℤ◌
loan_calls = tt
