-- ===== src/Loans/History/Status.antt =====
-- The status of an installment agrees with what is paid, over any number of writes.
use nance_peer_lend_borrow_p.Prelude.{ℕ, ◌≡◌, ◌≢◌, ◌⊎◌, ◌↔◌, refl, arith, some, inl, inr}
use nance_peer_lend_borrow_p.Prelude.Int.{ℤ, pos, ◌≤ℤ◌, eq_of_parts}
use nance_peer_lend_borrow_p.Platform.Table.{get, get_next}
use nance_peer_lend_borrow_p.Platform.Rows.Loans.{
  Repayment, RepaymentStatus, scheduled, partial, paid, overdue,
}
use nance_peer_lend_borrow_p.Loans.History.{
  Core, IsSoundRepayment, SameInstallment, IsPartPayment, Write, Writes, skips, opens, moves,
  installs, progresses, adds, done, more,
}
use nance_peer_lend_borrow_p.Loans.History.Invariant.{Inv, Writes-Inv, after_update, after_insert}

-- Something is paid, and not all.
pub record IsBetween (r : Repayment) : Type 0 where
  pub some_paid : pos 1 ≤ℤ r.amount_paid
  pub some_left : r.amount_paid ≢ r.amount_due

-- The status says how much is paid.
pub record StatusAgrees (r : Repayment) : Type 0 where
  pub all_paid : (r.status ≡ paid) ↔ (r.amount_paid ≡ r.amount_due)
  pub part_paid : (r.status ≡ partial) ↔ IsBetween r
  pub none_paid : ((r.status ≡ scheduled) ⊎ (r.status ≡ overdue)) ↔ (r.amount_paid ≡ pos 0)

-- Each stored installment marked partial is paid in part.
abbrev pub PartialsBetween : Core → Type 0
PartialsBetween c =
    (id : ℕ) (r : Repayment) → get id c.repayments ≡ some r → r.status ≡ partial → IsBetween r

added-positive : (a b : ℤ) → pos 0 ≤ℤ a → a ≤ℤ b → a ≢ b → pos 1 ≤ℤ b
added-positive a b h k n = ground (arith, eq_of_parts a b)

part-IsBetween :
    {old new : Repayment}
    → IsSoundRepayment old
    → SameInstallment old new
    → IsPartPayment old new
    → IsBetween new
part-IsBetween {old} {new} s t f = record {
  some_paid = added-positive old.amount_paid new.amount_paid s.paid_low t.grows f.added;
  some_left = f.left;
}

Write-PartialsBetween : {c d : Core} → Write c d → Inv c → PartialsBetween c → PartialsBetween d
Write-PartialsBetween (skips n m h k) i b = b
Write-PartialsBetween (opens l actor p h s) i b = b
Write-PartialsBetween (moves id old new actor p h m t s) i b = b
Write-PartialsBetween {c} (installs r actor p h s) i b =
    after_insert (λ _ r. r.status ≡ partial → IsBetween r) c.next_repayment r c.repayments
      (get_next c.next_repayment c.repayments i.repayments_below) (λ e. ground arith) b
Write-PartialsBetween {c} (progresses id old new actor p h n m f t s) i b =
    after_update (λ _ r. r.status ≡ partial → IsBetween r) id new old c.repayments h
      (λ e. part-IsBetween (i.repayments_sound id old h) t (f e)) b
Write-PartialsBetween {c} (adds id old new h o n f t s) i b =
    after_update (λ _ r. r.status ≡ partial → IsBetween r) id new old c.repayments h
      (λ e. part-IsBetween (i.repayments_sound id old h) t f) b

pub Writes-PartialsBetween :
    {c d : Core} → Writes c d → Inv c → PartialsBetween c → PartialsBetween d
Writes-PartialsBetween done i b = b
Writes-PartialsBetween (more s w) i b =
    Write-PartialsBetween w (Writes-Inv s i) (Writes-PartialsBetween s i b)

-- The three ways an installment can stand.
data Standing (r : Repayment) : Type 0 where
  untouched : ((r.status ≡ scheduled) ⊎ (r.status ≡ overdue)) → r.amount_paid ≡ pos 0 → Standing r
  begun : r.status ≡ partial → IsBetween r → Standing r
  finished : r.status ≡ paid → r.amount_paid ≡ r.amount_due → Standing r

status-cases :
    (s : RepaymentStatus) → (s ≡ paid) ⊎ (s ≡ partial) ⊎ ((s ≡ scheduled) ⊎ (s ≡ overdue))
status-cases scheduled = inr (inr (inl refl))
status-cases partial = inr (inl refl)
status-cases paid = inl refl
status-cases overdue = inr (inr (inr refl))

sound-Standing :
    (r : Repayment) → IsSoundRepayment r → (r.status ≡ partial → IsBetween r) → Standing r
sound-Standing r s b = elim (status-cases r.status) [
  | inl e ↦ finished e (s.paid_all e)
  | inr (inl e) ↦ begun e (b e)
  | inr (inr (inl e)) ↦ untouched (inl e) (s.untouched e)
  | inr (inr (inr e)) ↦ untouched (inr e) (s.untouched_late e)
]

module _ (r : Repayment) (due : pos 1 ≤ℤ r.amount_due) where
  full-paid : Standing r → r.amount_paid ≡ r.amount_due → r.status ≡ paid
  full-paid (untouched k z) e = ground arith
  full-paid (begun k z) e = absurd (z.some_left e)
  full-paid (finished k z) e = k

  between-partial : Standing r → IsBetween r → r.status ≡ partial
  between-partial (untouched k z) e = ground (arith, e.some_paid)
  between-partial (begun k z) e = k
  between-partial (finished k z) e = absurd (e.some_left z)

  zero-untouched :
      Standing r → r.amount_paid ≡ pos 0 → (r.status ≡ scheduled) ⊎ (r.status ≡ overdue)
  zero-untouched (untouched k z) e = k
  zero-untouched (begun k z) e = ground (arith, z.some_paid)
  zero-untouched (finished k z) e = ground arith

pub sound-StatusAgrees :
    (r : Repayment) → IsSoundRepayment r → (r.status ≡ partial → IsBetween r) → StatusAgrees r
sound-StatusAgrees r s b =
    let t = sound-Standing r s b in
    record {
      all_paid = (s.paid_all, full-paid r s.due t);
      part_paid = (b, between-partial r s.due t);
      none_paid = (
        λ k. elim k [ inl e ↦ s.untouched e | inr e ↦ s.untouched_late e ],
        zero-untouched r s.due t,
      );
    }
