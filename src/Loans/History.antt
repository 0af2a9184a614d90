-- ===== src/Loans/History.antt =====
-- What the calls of the loan services may do to the tables, as a relation: the specification that
-- loan_service.py and repayment_service.py implement.
pub mod Invariant
pub mod Life
pub mod Status
pub mod Trace
use nance_peer_lend_borrow_p.Prelude.{
  ℕ, ◌+◌, ◌≤◌, ◌≡◌, ◌≢◌, ◌<◌, ◌||◌, true, Option, some, List, ◌∷◌,
}
use nance_peer_lend_borrow_p.Prelude.Int.{pos, ◌≤ℤ◌}
use nance_peer_lend_borrow_p.Platform.Table.{Table, get, insert, update}
use nance_peer_lend_borrow_p.Platform.Rows.Loans.{
  Loan, LoanStatus, pending_invite, pending_review, rejected, active, closed, cancelled,
  loan_status_eq, Repayment, RepaymentStatus, scheduled, partial, paid, overdue,
}
use nance_peer_lend_borrow_p.Platform.Rows.Notices.{Value, Payload, AuditEvent, EntityType, row_id}
use nance_peer_lend_borrow_p.Platform.World.{World}

-- The part of the state that is about loans.
pub record Core : Type 0 where
  pub loans : Table Loan
  pub repayments : Table Repayment
  pub audit : List AuditEvent
  pub next_loan : ℕ
  pub next_repayment : ℕ

abbrev pub core : World → Core
core w = record {
  loans = w.db.loans;
  repayments = w.db.repayments;
  audit = w.db.audit;
  next_loan = w.seq.loan;
  next_repayment = w.seq.repayment;
}

-- The life of a loan: a request waits for its borrower, who accepts or rejects it; its lender may
-- cancel a request to an active user; what was not refused is closed when all is paid.
pub data LoanMove : LoanStatus → LoanStatus → Type 0 where
  accept_review : LoanMove pending_review active
  accept_invite : LoanMove pending_invite active
  reject_review : LoanMove pending_review rejected
  reject_invite : LoanMove pending_invite rejected
  cancel : LoanMove pending_review cancelled
  settle : (s : LoanStatus) → s ≢ cancelled → s ≢ rejected → s ≢ closed → LoanMove s closed

-- The terms of a loan, which no call changes.
pub record SameTerms (old new : Loan) : Type 0 where
  pub borrower : new.borrower_id ≡ old.borrower_id
  pub lender : new.lender_id ≡ old.lender_id
  pub principal : new.principal_amount ≡ old.principal_amount
  pub currency : new.currency ≡ old.currency
  pub rate : new.interest_rate ≡ old.interest_rate
  pub months : new.repayment_term_months ≡ old.repayment_term_months
  pub starts : new.starts_at ≡ old.starts_at
  pub ends : new.ends_at ≡ old.ends_at

-- What validation promises of a stored loan.
pub record IsSoundLoan (l : Loan) : Type 0 where
  pub principal : pos 1 ≤ℤ l.principal_amount
  pub parties : l.lender_id ≢ some l.borrower_id
  pub period : l.starts_at < l.ends_at
  pub rate_low : pos 0 ≤ℤ l.interest_rate
  pub rate_high : l.interest_rate ≤ℤ pos 10000
  pub months_low : pos 1 ≤ℤ l.repayment_term_months
  pub months_high : l.repayment_term_months ≤ℤ pos 360

-- The terms of an installment, which no call changes; what is paid only grows.
pub record SameInstallment (old new : Repayment) : Type 0 where
  pub loan : new.loan_id ≡ old.loan_id
  pub number : new.installment_number ≡ old.installment_number
  pub due_on : new.due_date ≡ old.due_date
  pub due : new.amount_due ≡ old.amount_due
  pub grows : old.amount_paid ≤ℤ new.amount_paid

-- A part of an installment is paid: money is added, and some is left to pay.
pub record IsPartPayment (old new : Repayment) : Type 0 where
  pub added : old.amount_paid ≢ new.amount_paid
  pub left : new.amount_paid ≢ new.amount_due

-- What validation promises of a stored installment: it is never overpaid, it is marked paid exactly
-- when all is paid, and money is on it unless it is scheduled or overdue.
pub record IsSoundRepayment (r : Repayment) : Type 0 where
  pub due : pos 1 ≤ℤ r.amount_due
  pub paid_low : pos 0 ≤ℤ r.amount_paid
  pub paid_high : r.amount_paid ≤ℤ r.amount_due
  pub paid_all : r.status ≡ paid → r.amount_paid ≡ r.amount_due
  pub dated : r.status ≡ paid → r.paid_at ≢ Option.none
  pub untouched : (r.status ≡ scheduled) → r.amount_paid ≡ pos 0
  pub untouched_late : (r.status ≡ overdue) → r.amount_paid ≡ pos 0

abbrev pub loan_event : ℕ → Value → LoanStatus → Option ℕ → Payload → AuditEvent
loan_event id from to actor metadata = record {
  entity_type = EntityType.loan;
  entity_id = row_id id;
  field_name = "status";
  from_state = from;
  to_state = Value.loan_status to;
  actor_id = actor;
  metadata = metadata;
}

abbrev pub installment_event : ℕ → Value → RepaymentStatus → Option ℕ → Payload → AuditEvent
installment_event id from to actor metadata = record {
  entity_type = EntityType.repayment;
  entity_id = row_id id;
  field_name = "status";
  from_state = from;
  to_state = Value.repayment_status to;
  actor_id = actor;
  metadata = metadata;
}

-- One write: a changed status goes with its audit event.
pub data Write (c : Core) : Core → Type 0 where
  -- sequences move on, also where a transaction is undone
  skips :
      (n m : ℕ)
      → c.next_loan ≤ n
      → c.next_repayment ≤ m
      → Write c (record c { next_loan = n; next_repayment = m })
  opens :
      (l : Loan) (actor : Option ℕ) (p : Payload)
      → (loan_status_eq l.status pending_review || loan_status_eq l.status pending_invite) ≡ true
      → IsSoundLoan l
      → Write c (record c {
        loans = insert c.next_loan l c.loans;
        audit = loan_event c.next_loan Value.null l.status actor p ∷ c.audit;
        next_loan = c.next_loan + 1;
      })
  moves :
      (id : ℕ) (old new : Loan) (actor : Option ℕ) (p : Payload)
      → get id c.loans ≡ some old
      → LoanMove old.status new.status
      → SameTerms old new
      → IsSoundLoan new
      → Write c (record c {
        loans = update id new c.loans;
        audit = loan_event id (Value.loan_status old.status) new.status actor p ∷ c.audit;
      })
  installs :
      (r : Repayment) (actor : Option ℕ) (p : Payload)
      → r.status ≡ scheduled
      → IsSoundRepayment r
      → Write c (record c {
        repayments = insert c.next_repayment r c.repayments;
        audit = installment_event c.next_repayment Value.null r.status actor p ∷ c.audit;
        next_repayment = c.next_repayment + 1;
      })
  progresses :
      (id : ℕ) (old new : Repayment) (actor : Option ℕ) (p : Payload)
      → get id c.repayments ≡ some old
      → old.status ≢ paid
      → old.status ≢ new.status
      → (new.status ≡ partial → IsPartPayment old new)
      → SameInstallment old new
      → IsSoundRepayment new
      → Write c (record c {
        repayments = update id new c.repayments;
        audit =
            installment_event id (Value.repayment_status old.status) new.status actor p ∷ c.audit;
      })
  -- a further partial payment leaves the status, and no event
  adds :
      (id : ℕ) (old new : Repayment)
      → get id c.repayments ≡ some old
      → old.status ≡ partial
      → new.status ≡ partial
      → IsPartPayment old new
      → SameInstallment old new
      → IsSoundRepayment new
      → Write c (record c { repayments = update id new c.repayments })

-- Any number of writes.
pub data Writes (c : Core) : Core → Type 0 where
  done : Writes c c
  more : {d e : Core} → Writes c d → Write d e → Writes c e

pub Writes-trans : {c d e : Core} → Writes c d → Writes d e → Writes c e
Writes-trans a done = a
Writes-trans a (more b s) = more (Writes-trans a b) s

pub one-Write : {c d : Core} → Write c d → Writes c d
one-Write s = more done s
