-- ===== src/Loans/Calls/Guarantees.antt =====
-- What holds after any calls of the loan services, on every branch of each, errors included.
use nance_peer_lend_borrow_p.Prelude.{ℕ, ◌≡◌, refl, ◌⊎◌, List, [], ◌∷◌, some}
use nance_peer_lend_borrow_p.Platform.Table.{get}
use nance_peer_lend_borrow_p.Platform.Rows.Loans.{Loan, Repayment, rejected, cancelled, closed}
use nance_peer_lend_borrow_p.Platform.Rows.Notices.{Value, loan, repayment}
use nance_peer_lend_borrow_p.Platform.World.{World, Env}
use nance_peer_lend_borrow_p.Loans.History.{core, Writes, Writes-trans, done, IsSoundLoan}
use nance_peer_lend_borrow_p.Loans.History.Trace.{Effect, Effect-Writes}
use nance_peer_lend_borrow_p.Loans.LoanService.{create_loan, accept_loan, reject_loan, cancel_loan}
use nance_peer_lend_borrow_p.Loans.RepaymentService.{create_repayment, apply_payment}
use nance_peer_lend_borrow_p.Loans.Reminders.{send_overdue_reminders}
use nance_peer_lend_borrow_p.Loans.History.Invariant.{Inv, last_state, Writes-Inv}
use nance_peer_lend_borrow_p.Loans.History.Life.{
  LoanAfter, RepaymentAfter, Writes-loan, Writes-repayment, LoanLife-final,
}
use nance_peer_lend_borrow_p.Loans.LoanService.Refinement.{accept_loan-Effect}
use nance_peer_lend_borrow_p.Loans.LoanService.Ending.{reject_loan-Effect, cancel_loan-Effect}
use nance_peer_lend_borrow_p.Loans.LoanService.Opening.{create_loan-Effect}
use nance_peer_lend_borrow_p.Loans.RepaymentService.Refinement.{create_repayment-Effect}
use nance_peer_lend_borrow_p.Loans.RepaymentService.PaymentRefinement.{apply_payment-Effect}
use nance_peer_lend_borrow_p.Loans.Reminders.Refinement.{send_overdue_reminders-Effect}
use nance_peer_lend_borrow_p.Loans.Calls.{
  Call, creates, accepts, rejects, cancels, installs, pays, reminds, elapses, broker, step, run,
}

-- What a call may do: the writes of the specification, or nothing to the tables.
abbrev pub IsStep : Env → Call → World → Type 0
IsStep env (creates a) w = Effect w (create_loan env a w)
IsStep env (accepts loan_id user_id key) w = Effect w (accept_loan env loan_id user_id key w)
IsStep env (rejects loan_id user_id reason key) w =
    Effect w (reject_loan env loan_id user_id reason key w)
IsStep env (cancels loan_id user_id key) w = Effect w (cancel_loan env loan_id user_id key w)
IsStep env (installs loan_id number due_date amount) w =
    Effect w (create_repayment loan_id number due_date amount w)
IsStep env (pays id amount at note reference) w =
    Effect w (apply_payment env id amount at note reference w)
IsStep env reminds w = Effect w (send_overdue_reminders env w)
IsStep env (elapses t) w = (step env (elapses t) w).db ≡ w.db
IsStep env (broker up) w = (step env (broker up) w).db ≡ w.db

-- So does each call, in the state that the calls before it leave.
abbrev pub IsHistory : Env → List Call → World → Type 0
IsHistory env [] w = Unit {0}
IsHistory env (c ∷ cs) w = IsStep env c w × IsHistory env cs (step env c w)

Call-IsStep : (env : Env) (c : Call) (w : World) → Inv (core w) → IsStep env c w
unfolding step
Call-IsStep env (creates a) w i = create_loan-Effect env a w
Call-IsStep env (accepts loan_id user_id key) w i = accept_loan-Effect env loan_id user_id key w
Call-IsStep env (rejects loan_id user_id reason key) w i =
    reject_loan-Effect env loan_id user_id reason key w
Call-IsStep env (cancels loan_id user_id key) w i = cancel_loan-Effect env loan_id user_id key w
Call-IsStep env (installs loan_id number due_date amount) w i =
    create_repayment-Effect loan_id number due_date amount w
Call-IsStep env (pays id amount at note reference) w i =
    apply_payment-Effect env id amount at note reference w
Call-IsStep env reminds w i = send_overdue_reminders-Effect env w i.repayments_keyed
Call-IsStep env (elapses t) w i = refl
Call-IsStep env (broker up) w i = refl

IsStep-Writes :
    (env : Env) (c : Call) (w : World) → IsStep env c w → Writes (core w) (core (step env c w))
unfolding step
IsStep-Writes env (creates a) w s = Effect-Writes w (create_loan env a w) s
IsStep-Writes env (accepts loan_id user_id key) w s =
    Effect-Writes w (accept_loan env loan_id user_id key w) s
IsStep-Writes env (rejects loan_id user_id reason key) w s =
    Effect-Writes w (reject_loan env loan_id user_id reason key w) s
IsStep-Writes env (cancels loan_id user_id key) w s =
    Effect-Writes w (cancel_loan env loan_id user_id key w) s
IsStep-Writes env (installs loan_id number due_date amount) w s =
    Effect-Writes w (create_repayment loan_id number due_date amount w) s
IsStep-Writes env (pays id amount at note reference) w s =
    Effect-Writes w (apply_payment env id amount at note reference w) s
IsStep-Writes env reminds w s = Effect-Writes w (send_overdue_reminders env w) s
IsStep-Writes env (elapses t) w s = done
IsStep-Writes env (broker up) w s = done

-- Where the rows are valid and the audit trail tells every status before, each of any calls in any order
-- changes the loans, the installments and the audit trail only by the writes of the specification when it
-- succeeds, and leaves every table as it was when it fails, as the passing of time and the queue's going
-- and coming do. The writes open a pending loan, move a loan's status, create an installment or change an installment's
-- status, each together with its audit event, or add to an installment that stays partial, or let a sequence
-- move on.
pub run-IsHistory : (env : Env) (cs : List Call) (w : World) → Inv (core w) → IsHistory env cs w
run-IsHistory env [] w i = tt
run-IsHistory env (c ∷ cs) w i =
    let s = Call-IsStep env c w i in
    (s, run-IsHistory env cs (step env c w) (Writes-Inv (IsStep-Writes env c w s) i))

-- The rows that calls leave are reached by the writes of the specification.
pub run-Writes :
    (env : Env) (cs : List Call) (w : World) → Inv (core w) → Writes (core w) (core (run env cs w))
unfolding run
run-Writes env [] w i = done
run-Writes env (c ∷ cs) w i =
    let s = IsStep-Writes env c w (Call-IsStep env c w i) in
    Writes-trans s (run-Writes env cs (step env c w) (Writes-Inv s i))

-- Where the rows are valid and told by the audit trail before, then after any calls every stored loan is sound: its amount is
-- positive, lender and borrower differ, it ends after it starts, its rate lies between 0 and 100 and its
-- term between 1 and 360 months.
pub run-IsSoundLoan :
    (env : Env) (cs : List Call) (w : World) (id : ℕ) (l : Loan)
    → Inv (core w)
    → get id (run env cs w).db.loans ≡ some l
    → IsSoundLoan l
run-IsSoundLoan env cs w id l i e = (Writes-Inv (run-Writes env cs w i) i).loans_sound id l e

-- Where the rows are valid and the audit trail tells every status before, it does so after any calls: the newest event about a
-- loan leads to the loan's status, and the newest event about an installment to the installment's.
pub run_audit_trail :
    (env : Env) (cs : List Call) (w : World)
    → Inv (core w)
    → ((id : ℕ) (l : Loan)
        → get id (run env cs w).db.loans ≡ some l
        → last_state loan id (run env cs w).db.audit ≡ some (Value.loan_status l.status))
      × ((id : ℕ) (r : Repayment)
          → get id (run env cs w).db.repayments ≡ some r
          → last_state repayment id (run env cs w).db.audit
            ≡ some (Value.repayment_status r.status))
run_audit_trail env cs w i =
    let j = Writes-Inv (run-Writes env cs w i) i in (j.loans_told, j.repayments_told)

-- Where the rows are valid and told by the audit trail before, a loan is still there after any calls, with the same parties,
-- amount, currency, rate, term and dates, and a status that allowed moves lead to.
pub run-LoanAfter :
    (env : Env) (cs : List Call) (w : World) (id : ℕ) (l : Loan)
    → Inv (core w)
    → get id w.db.loans ≡ some l
    → (m : Loan) × (get id (run env cs w).db.loans ≡ some m) × LoanAfter l m
run-LoanAfter env cs w id l i e = Writes-loan id l (run-Writes env cs w i) i e

-- Where the rows are valid and told by the audit trail before, a loan that is rejected, cancelled or closed keeps its status
-- whatever is called.
pub run_final_status :
    (env : Env) (cs : List Call) (w : World) (id : ℕ) (l : Loan)
    → Inv (core w)
    → get id w.db.loans ≡ some l
    → ((l.status ≡ rejected) ⊎ (l.status ≡ cancelled) ⊎ (l.status ≡ closed))
    → (m : Loan) × (get id (run env cs w).db.loans ≡ some m) × (m.status ≡ l.status)
run_final_status env cs w id l i e f =
    let (m, g, a) = run-LoanAfter env cs w id l i e in (m, g, LoanLife-final a.life f)

-- Where the rows are valid and told by the audit trail before, an installment is still there after any calls, on the same loan,
-- with the same number, date and amount due and no less paid; one that is paid does not change at all.
pub run-RepaymentAfter :
    (env : Env) (cs : List Call) (w : World) (id : ℕ) (r : Repayment)
    → Inv (core w)
    → get id w.db.repayments ≡ some r
    → (s : Repayment) × (get id (run env cs w).db.repayments ≡ some s) × RepaymentAfter r s
run-RepaymentAfter env cs w id r i e = Writes-repayment id r (run-Writes env cs w i) i e
