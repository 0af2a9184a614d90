-- ===== src/Platform/Post.antt =====
-- Postconditions of actions: what holds of the result and the state when an action succeeds, and the
-- rules for a sequence and for a transaction.
use nance_peer_lend_borrow_p.Prelude.{
  ◌≡◌, refl, Bool, true, false, Option, none, some, [], ◌++◌, if◌then◌else◌,
}
use nance_peer_lend_borrow_p.Platform.Errors.{Error, Result, ok, err}
use nance_peer_lend_borrow_p.Platform.World.{
  World, M, and_then, ◌>>=◌, atomic, close_transaction, or_missing, or_else, raise_if,
}

module _ {A : Type 0} where
  abbrev pub Post : (A → World → Type 0) → Result A × World → Type 0
  Post P (ok a, w) = P a w
  Post P (err _, w) = Unit

  pub Post-weaken :
      (P Q : A → World → Type 0) (r : Result A × World)
      → Post P r
      → ((a : A) (w : World) → P a w → Q a w)
      → Post Q r
  Post-weaken P Q (ok a, w) h k = k a w h
  Post-weaken P Q (err _, w) h k = tt

module _ {A B : Type 0} where
  after_bind :
      (P : A → World → Type 0) (Q : B → World → Type 0) (f : A → M B) (r : Result A × World)
      → Post P r
      → ((a : A) (w : World) → P a w → Post Q (f a w))
      → Post Q (and_then r f)
  after_bind P Q f (ok a, w) h k = k a w h
  after_bind P Q f (err e, w) h k = tt

  -- A sequence whose first action says nothing that is needed.
  pub Post-then :
      (Q : B → World → Type 0) (m : M A) (f : A → M B) (w : World)
      → ((a : A) (w' : World) → Post Q (f a w'))
      → Post Q ((m >>= f) w)
  Post-then Q m f w k = after_bind (λ _ _. Unit) Q f (m w) (nothing (m w)) (λ a w' _. k a w')
    where
      nothing : (r : Result A × World) → Post (λ _ _. Unit) r
      nothing (ok a, w) = tt
      nothing (err e, w) = tt

  -- A sequence: the second action starts where the first has succeeded.
  pub Post-bind :
      (P : A → World → Type 0) (Q : B → World → Type 0) (m : M A) (f : A → M B) (w : World)
      → Post P (m w)
      → ((a : A) (w' : World) → P a w' → Post Q (f a w'))
      → Post Q ((m >>= f) w)
  Post-bind P Q m f w h k = after_bind P Q f (m w) h k

module _ {A : Type 0} where
  after_close :
      (Q : A → World → Type 0) (w : World) (r : Result A × World)
      → Post (λ a w'. Q a (record w' { hooks = []; published = w'.hooks ++ w'.published })) r
      → Post Q (close_transaction w r)
  after_close Q w (ok a, w') h = h
  after_close Q w (err e, w') h = tt

  -- A transaction that succeeds ends where its body ends, with the hooks run.
  pub Post-atomic :
      (Q : A → World → Type 0) (m : M A) (w : World)
      → Post
          (λ a w'. Q a (record w' { hooks = []; published = w'.hooks ++ w'.published }))
          (m (record w { hooks = [] }))
      → Post Q (atomic m w)
  Post-atomic Q m w h = after_close Q w (m (record w { hooks = [] })) h

  -- It is enough to look at the successful result.
  pub Post-of_ok :
      (P : A → World → Type 0) (r : Result A × World) → ((a : A) → r.0 ≡ ok a → P a r.1) → Post P r
  Post-of_ok P (ok a, w) k = k a refl
  Post-of_ok P (err e, w) k = tt

  -- What a postcondition says of a call that has succeeded.
  pub Post-ok :
      (P : A → World → Type 0) (r : Result A × World) (a : A) (w : World)
      → Post P r
      → r ≡ (ok a, w)
      → P a w
  Post-ok P r a w h e = rw e at h

-- Rules for the steps that leave the state alone.
module _ {A B : Type 0} (Q : B → World → Type 0) where
  pub Post-missing :
      (o : Option A) (f : A → M B) (w : World)
      → ((a : A) → o ≡ some a → Post Q (f a w))
      → Post Q ((or_missing o >>= f) w)
  Post-missing none f w k = tt
  Post-missing (some a) f w k = k a refl

module _ {B : Type 0} (Q : B → World → Type 0) where
  pub Post-raise_if :
      (c : Bool) (e : Error) (f : Unit {0} → M B) (w : World)
      → (c ≡ false → Post Q (f tt w))
      → Post Q ((raise_if c e >>= f) w)
  Post-raise_if true e f w k = tt
  Post-raise_if false e f w k = k refl

  pub Post-if :
      (c : Bool) (m n : M B) (w : World)
      → (c ≡ true → Post Q (m w))
      → (c ≡ false → Post Q (n w))
      → Post Q ((if c then m else n) w)
  Post-if true m n w h k = h refl
  Post-if false m n w h k = k refl

  pub Post-or_else :
      (o : Option B) (m : M B) (w : World)
      → ((b : B) → o ≡ some b → Q b w)
      → (o ≡ none → Post Q (m w))
      → Post Q (or_else o m w)
  Post-or_else none m w h k = k refl
  Post-or_else (some b) m w h k = h b refl

-- A result that is an error has nothing to show.
pub Post-of_err :
    {A : Type 0} (P : A → World → Type 0) (r : Result A × World) (e : Error)
    → r.0 ≡ err e
    → Post P r
Post-of_err P (ok a, w) e h = cc
Post-of_err P (err x, w) e h = tt
