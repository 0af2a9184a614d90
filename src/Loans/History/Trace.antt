-- ===== src/Loans/History/Trace.antt =====
-- Actions that make only the writes of the specification, and the rules to show it step by step.
use nance_peer_lend_borrow_p.Prelude.{
  ◌≤◌, ◌≡◌, refl, Bool, true, false, Option, none, some, [], arith, if◌then◌else◌,
}
use nance_peer_lend_borrow_p.Platform.Errors.{Error, Result, ok, err}
use nance_peer_lend_borrow_p.Platform.World.{
  World, M, and_then, close_transaction, atomic, or_missing, or_else, raise_if, ◌>>=◌,
}
use nance_peer_lend_borrow_p.Loans.History.{
  Core, core, Write, Writes, Writes-trans, one-Write, skips, opens, moves, installs, progresses,
  adds, done, more,
}

-- A sequence never goes back.
pub record SeqLe (c d : Core) : Type 0 where
  pub loan : c.next_loan ≤ d.next_loan
  pub repayment : c.next_repayment ≤ d.next_repayment

Write-SeqLe : {c d : Core} → Write c d → SeqLe c d
Write-SeqLe (skips n m h k) = record { loan = h; repayment = k }
Write-SeqLe (opens l actor p h s) = omega arith
Write-SeqLe (moves id old new actor p h m t s) = omega arith
Write-SeqLe (installs r actor p h s) = omega arith
Write-SeqLe (progresses id old new actor p h n m f t s) = omega arith
Write-SeqLe (adds id old new h o n f t s) = omega arith

Writes-SeqLe : {c d : Core} → Writes c d → SeqLe c d
Writes-SeqLe done = omega arith
Writes-SeqLe (more s w) = let a = Writes-SeqLe s in let b = Write-SeqLe w in omega arith

-- An action that succeeds makes writes; one that raises leaves writes to be undone, and sequences.
abbrev pub Trace : {A : Type 0} → World → Result A × World → Type 0
Trace w (ok _, w') = Writes (core w) (core w')
Trace w (err _, w') = SeqLe (core w) (core w')

-- A call that succeeds makes writes; one that fails leaves every table as it was.
abbrev pub Effect : {A : Type 0} → World → Result A × World → Type 0
Effect w (ok _, v) = Writes (core w) (core v)
Effect w (err _, v) = (v.db ≡ w.db) × SeqLe (core w) (core v)

pub Trace-same : {A : Type 0} (w : World) (r : Result A × World) → core r.1 ≡ core w → Trace w r
Trace-same w (ok a, w') e = rw e done
Trace-same w (err x, w') e = rw e (omega arith)

-- A result from which it is known what success means, and that the sequences stay.
pub Trace-of_ok :
    {A : Type 0} (w : World) (r : Result A × World)
    → ((a : A) → r.0 ≡ ok a → Writes (core w) (core r.1))
    → SeqLe (core w) (core r.1)
    → Trace w r
Trace-of_ok w (ok a, w') k s = k a refl
Trace-of_ok w (err x, w') k s = s

extend-Trace :
    {A : Type 0} (v w : World) (r : Result A × World)
    → Writes (core v) (core w)
    → Trace w r
    → Trace v r
extend-Trace v w (ok a, w') s t = Writes-trans s t
extend-Trace v w (err e, w') s t = let b = Writes-SeqLe s in omega arith

module _ {A B : Type 0} (w : World) where
  after-Trace :
      (r : Result A × World) (f : A → M B)
      → Trace w r
      → ((a : A) (w' : World) → r ≡ (ok a, w') → Trace w' (f a w'))
      → Trace w (and_then r f)
  after-Trace (ok a, w') f t k = extend-Trace w w' (f a w') t (k a w' refl)
  after-Trace (err e, w') f t k = t

  pub Trace-bind :
      (m : M A) (f : A → M B)
      → Trace w (m w)
      → ((a : A) (w' : World) → m w ≡ (ok a, w') → Trace w' (f a w'))
      → Trace w ((m >>= f) w)
  Trace-bind m f t k = after-Trace (m w) f t k

  after_read :
      (r : Result A × World) (f : A → M B)
      → r.1 ≡ w
      → ((a : A) → r.0 ≡ ok a → Trace w (f a w))
      → Trace w (and_then r f)
  after_read (ok a, w') f e k = rw e (k a refl)
  after_read (err x, w') f e k = rw e (omega arith)

  -- An action that only reads.
  pub Trace-read :
      (m : M A) (f : A → M B)
      → (m w).1 ≡ w
      → ((a : A) → (m w).0 ≡ ok a → Trace w (f a w))
      → Trace w ((m >>= f) w)
  Trace-read m f e k = after_read (m w) f e k

  pub Trace-missing :
      (o : Option A) (f : A → M B)
      → ((a : A) → o ≡ some a → Trace w (f a w))
      → Trace w ((or_missing o >>= f) w)
  Trace-missing none f k = omega arith
  Trace-missing (some a) f k = k a refl

module _ {B : Type 0} (w : World) where
  pub Trace-raise_if :
      (c : Bool) (e : Error) (f : Unit {0} → M B)
      → (c ≡ false → Trace w (f tt w))
      → Trace w ((raise_if c e >>= f) w)
  Trace-raise_if true e f k = omega arith
  Trace-raise_if false e f k = k refl

  pub Trace-if :
      (c : Bool) (m n : M B)
      → (c ≡ true → Trace w (m w))
      → (c ≡ false → Trace w (n w))
      → Trace w ((if c then m else n) w)
  Trace-if true m n h k = h refl
  Trace-if false m n h k = k refl

  pub Trace-or_else : (o : Option B) (m : M B) → Trace w (m w) → Trace w (or_else o m w)
  Trace-or_else none m t = t
  Trace-or_else (some b) m t = done

  close-Effect :
      (r : Result B × World) → Trace (record w { hooks = [] }) r → Effect w (close_transaction w r)
  close-Effect (ok b, w') t = t
  close-Effect (err e, w') t = (refl, record { loan = t.loan; repayment = t.repayment })

  -- A transaction has an effect, where its body makes writes.
  pub atomic-Effect :
      (m : M B)
      → Trace (record w { hooks = [] }) (m (record w { hooks = [] }))
      → Effect w (atomic m w)
  atomic-Effect m t = close-Effect (m (record w { hooks = [] })) t

  -- The rows that an effect leaves are reached by writes; a failure moves sequences at most.
  pub Effect-Writes : (r : Result B × World) → Effect w r → Writes (core w) (core r.1)
  Effect-Writes (ok b, v) t = t
  Effect-Writes (err e, v) (same, t) =
      rw same (one-Write (skips v.seq.loan v.seq.repayment t.loan t.repayment))
