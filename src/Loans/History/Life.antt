-- ===== src/Loans/History/Life.antt =====
-- What happens to one loan, and to one installment, over any number of writes.
use nance_peer_lend_borrow_p.Prelude.{
  ℕ, ◌≡◌, ◌≢◌, refl, sym, ap, ◌∙◌, ◌⊎◌, inl, inr, true, false, some, arith, Bool-cases, ◌==◌,
}
use nance_peer_lend_borrow_p.Platform.Table.{get, get-update, get-insert, get_next}
use nance_peer_lend_borrow_p.Platform.Rows.Loans.{
  Loan, LoanStatus, rejected, closed, cancelled, Repayment, paid,
}
use nance_peer_lend_borrow_p.Loans.History.{
  Core, LoanMove, accept_review, accept_invite, reject_review, reject_invite, cancel, settle,
  SameTerms, SameInstallment, Write, Writes, skips, opens, moves, installs, progresses, adds, done,
  more,
}
use nance_peer_lend_borrow_p.Loans.History.Invariant.{Inv, Writes-Inv}

-- Any number of moves.
pub data LoanLife (s : LoanStatus) : LoanStatus → Type 0 where
  same : LoanLife s s
  onward : {t u : LoanStatus} → LoanLife s t → LoanMove t u → LoanLife s u

-- The later loan has the terms of the earlier one, and a status that it leads to.
pub record LoanAfter (l m : Loan) : Type 0 where
  pub terms : SameTerms l m
  pub life : LoanLife l.status m.status

-- The later installment has the terms of the earlier one, has no less paid, and stays paid.
pub record RepaymentAfter (r s : Repayment) : Type 0 where
  pub terms : SameInstallment r s
  pub final : r.status ≡ paid → s ≡ r

LoanAfter-refl : (l : Loan) → LoanAfter l l
LoanAfter-refl l = record { terms = ground arith; life = same }

SameTerms-trans : {l m n : Loan} → SameTerms l m → SameTerms m n → SameTerms l n
SameTerms-trans a b = ground arith

LoanAfter-move :
    {l m n : Loan} → LoanAfter l m → SameTerms m n → LoanMove m.status n.status → LoanAfter l n
LoanAfter-move a t v = record { terms = SameTerms-trans a.terms t; life = onward a.life v }

dec_key : (k j : ℕ) → (((k == j) ≡ true) × (k ≡ j)) ⊎ ((k == j) ≡ false)
dec_key k j = elim (Bool-cases (k == j)) [ inl e ↦ inl (e, ground arith) | inr e ↦ inr e ]

-- The row under a key, followed through one write.
Write-loan :
    {c d : Core} (id : ℕ) (l m : Loan)
    → Write c d
    → Inv c
    → LoanAfter l m
    → get id c.loans ≡ some m
    → (n : Loan) × (get id d.loans ≡ some n) × LoanAfter l n
Write-loan id l m (skips n k h g) i a e = (m, e, a)
Write-loan {c} id l m (opens o actor p h s) i a e = (
  m,
  ground (arith, get-insert id c.next_loan o c.loans, get_next c.next_loan c.loans i.loans_below),
  a,
)
Write-loan {c} id l m (moves k old new actor p h v t s) i a e = elim (dec_key k id) [
  | inl (hit, eq) ↦
      let found : some old ≡ some m = sym h ∙ (rw eq e) in
      let same_row : m ≡ old = cc found in
      (
        new,
        get-update id k new old c.loans h ∙ rw hit,
        LoanAfter-move a (rw same_row t) (rw same_row v),
      )
  | inr miss ↦ (m, get-update id k new old c.loans h ∙ rw miss e, a)
]
Write-loan id l m (installs r actor p h s) i a e = (m, e, a)
Write-loan id l m (progresses k old new actor p h n v f t s) i a e = (m, e, a)
Write-loan id l m (adds k old new h o n f t s) i a e = (m, e, a)

pub Writes-loan :
    {c d : Core} (id : ℕ) (l : Loan)
    → Writes c d
    → Inv c
    → get id c.loans ≡ some l
    → (n : Loan) × (get id d.loans ≡ some n) × LoanAfter l n
Writes-loan id l done i e = (l, e, LoanAfter-refl l)
Writes-loan id l (more s w) i e =
    let (m, f, a) = Writes-loan id l s i e in Write-loan id l m w (Writes-Inv s i) a f

RepaymentAfter-refl : (r : Repayment) → RepaymentAfter r r
RepaymentAfter-refl r = record { terms = ground arith; final = λ _. refl }

SameInstallment-trans :
    {r s t : Repayment} → SameInstallment r s → SameInstallment s t → SameInstallment r t
SameInstallment-trans a b = record {
  loan = b.loan ∙ a.loan;
  number = b.number ∙ a.number;
  due_on = b.due_on ∙ a.due_on;
  due = b.due ∙ a.due;
  grows = omega arith;
}

RepaymentAfter-move :
    {r s t : Repayment}
    → RepaymentAfter r s
    → SameInstallment s t
    → s.status ≢ paid
    → RepaymentAfter r t
RepaymentAfter-move {r} {s} a t n = record {
  terms = SameInstallment-trans a.terms t;
  final = λ p. absurd (n (ap (λ x. x.status) (a.final p) ∙ p));
}

Write-repayment :
    {c d : Core} (id : ℕ) (r m : Repayment)
    → Write c d
    → Inv c
    → RepaymentAfter r m
    → get id c.repayments ≡ some m
    → (n : Repayment) × (get id d.repayments ≡ some n) × RepaymentAfter r n
Write-repayment id r m (skips n k h g) i a e = (m, e, a)
Write-repayment id r m (opens o actor p h s) i a e = (m, e, a)
Write-repayment id r m (moves k old new actor p h v t s) i a e = (m, e, a)
Write-repayment {c} id r m (installs o actor p h s) i a e = (
  m,
  ground (
    arith,
    get-insert id c.next_repayment o c.repayments,
    get_next c.next_repayment c.repayments i.repayments_below,
  ),
  a,
)
Write-repayment {c} id r m (progresses k old new actor p h n v f t s) i a e = elim (dec_key k id) [
  | inl (hit, eq) ↦
      let found : some old ≡ some m = sym h ∙ (rw eq e) in
      let same_row : m ≡ old = cc found in
      (
        new,
        get-update id k new old c.repayments h ∙ rw hit,
        RepaymentAfter-move a (rw same_row t) (rw same_row n),
      )
  | inr miss ↦ (m, get-update id k new old c.repayments h ∙ rw miss e, a)
]
Write-repayment {c} id r m (adds k old new h o n f t s) i a e = elim (dec_key k id) [
  | inl (hit, eq) ↦
      let found : some old ≡ some m = sym h ∙ (rw eq e) in
      let same_row : m ≡ old = cc found in
      (
        new,
        get-update id k new old c.repayments h ∙ rw hit,
        RepaymentAfter-move a (rw same_row t) (rw same_row (λ p. ground arith)),
      )
  | inr miss ↦ (m, get-update id k new old c.repayments h ∙ rw miss e, a)
]

pub Writes-repayment :
    {c d : Core} (id : ℕ) (r : Repayment)
    → Writes c d
    → Inv c
    → get id c.repayments ≡ some r
    → (n : Repayment) × (get id d.repayments ≡ some n) × RepaymentAfter r n
Writes-repayment id r done i e = (r, e, RepaymentAfter-refl r)
Writes-repayment id r (more s w) i e =
    let (m, f, a) = Writes-repayment id r s i e in Write-repayment id r m w (Writes-Inv s i) a f

no_move : {s t : LoanStatus} → LoanMove s t → ¬ ((s ≡ rejected) ⊎ (s ≡ cancelled) ⊎ (s ≡ closed))
no_move accept_review f = ground arith
no_move accept_invite f = ground arith
no_move reject_review f = ground arith
no_move reject_invite f = ground arith
no_move cancel f = ground arith
no_move (settle s a b c) f = ground arith

-- Rejected, cancelled and closed loans stay what they are.
pub LoanLife-final :
    {s t : LoanStatus} → LoanLife s t → ((s ≡ rejected) ⊎ (s ≡ cancelled) ⊎ (s ≡ closed)) → t ≡ s
LoanLife-final same f = refl
LoanLife-final {s} (onward {t = t} life m) f =
    let e = LoanLife-final life f in absurd (no_move m (rw e f))
