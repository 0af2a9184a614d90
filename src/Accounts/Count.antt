-- ===== src/Accounts/Count.antt =====
-- How many primary Gmail accounts a user has in a table, and the writes that keep it at one
-- (src/apps/accounts/services/gmail_oauth_service.py).
use nance_peer_lend_borrow_p.Prelude.{
  ℕ, ◌+◌, ◌≡◌, ◌≤◌, refl, sym, ap, ◌∙◌, true, false, ◌&&◌, inl, inr, none, some, [], ◌∷◌, arith,
  ◌==◌, any, Bool-cases, if◌then◌else◌,
}
use nance_peer_lend_borrow_p.Platform.Table.{
  Table, get, insert, update, Below, IsKeyed, IsKeyed-update, Below-update,
}
use nance_peer_lend_borrow_p.Platform.Rows.Accounts.{GmailAccount}
use nance_peer_lend_borrow_p.Accounts.{clear_primary, is_other_primary}

-- 1 for a primary account of the user, 0 for another.
abbrev pub one : ℕ → GmailAccount → ℕ
one u a = if a.user_id == u && a.is_primary then 1 else 0

-- How many primary accounts the user has.
unfoldable pub primaries : ℕ → Table GmailAccount → ℕ
primaries u [] = 0
primaries u ((_, a) ∷ ts) = one u a + primaries u ts

pub primaries-insert :
    (u id : ℕ) (a : GmailAccount) (ts : Table GmailAccount)
    → primaries u (insert id a ts) ≡ primaries u ts + one u a
unfolding primaries
primaries-insert u id a [] = omega arith
primaries-insert u id a ((j, b) ∷ ts) = omega (arith, primaries-insert u id a ts)

primaries-update :
    (u id : ℕ) (a b : GmailAccount) (ts : Table GmailAccount)
    → get id ts ≡ some b
    → primaries u (update id a ts) + one u b ≡ primaries u ts + one u a
unfolding primaries
primaries-update u id a b [] h = cc
primaries-update u id a b ((j, c) ∷ ts) h = elim (Bool-cases (j == id)) [
  | inl e ↦ let q : c ≡ b = ground (arith, h, e) in rw (e, q) (omega arith)
  | inr e ↦
      let k : get id ts ≡ some b = ground (arith, h, e) in
      rw e (omega (arith, primaries-update u id a b ts k))
]

primaries-clear :
    (u v : ℕ) (ts : Table GmailAccount)
    → primaries v (clear_primary u ts) ≡ (if v == u then 0 else primaries v ts)
unfolding primaries clear_primary
primaries-clear u v [] = ground arith
primaries-clear u v ((j, c) ∷ ts) = ground (arith, primaries-clear u v ts)

get-clear :
    (u id : ℕ) (b : GmailAccount) (ts : Table GmailAccount)
    → get id ts ≡ some b
    → (c : GmailAccount) × (get id (clear_primary u ts) ≡ some c) × (c.user_id ≡ b.user_id)
unfolding clear_primary
get-clear u id b [] h = cc
get-clear u id b ((j, c) ∷ ts) h = elim (Bool-cases (j == id)) [
  | inl e ↦ let q : c ≡ b = ground (arith, h, e) in rw e (_, refl, ground arith)
  | inr e ↦ rw e (get-clear u id b ts (ground (arith, h, e)))
]

missing-clear :
    (u id : ℕ) (ts : Table GmailAccount) → get id ts ≡ none → get id (clear_primary u ts) ≡ none
unfolding clear_primary
missing-clear u id [] h = refl
missing-clear u id ((j, c) ∷ ts) h = ground (arith, h, missing-clear u id ts)

IsKeyed-clear_primary :
    (u : ℕ) (ts : Table GmailAccount) → IsKeyed ts → IsKeyed (clear_primary u ts)
unfolding clear_primary
IsKeyed-clear_primary u [] k = tt
IsKeyed-clear_primary u ((j, c) ∷ ts) k = (missing-clear u j ts k.0, IsKeyed-clear_primary u ts k.1)

Below-clear_primary :
    (u n : ℕ) (ts : Table GmailAccount) → Below n ts → Below n (clear_primary u ts)
unfolding clear_primary
Below-clear_primary u n [] k = tt
Below-clear_primary u n ((j, c) ∷ ts) k = (k.0, Below-clear_primary u n ts k.1)

none_primary :
    (u id : ℕ) (ts : Table GmailAccount)
    → any (is_other_primary u id) ts ≡ false
    → get id ts ≡ none
    → primaries u ts ≡ 0
unfolding primaries
none_primary u id [] h g = refl
none_primary u id ((j, c) ∷ ts) h g = ground (arith, h, g, none_primary u id ts)

pub no_other :
    (u id : ℕ) (b : GmailAccount) (ts : Table GmailAccount)
    → any (is_other_primary u id) ts ≡ false
    → get id ts ≡ some b
    → IsKeyed ts
    → primaries u ts ≡ one u b
unfolding primaries
no_other u id b [] h g k = cc
no_other u id b ((j, c) ∷ ts) h g k = elim (Bool-cases (j == id)) [
  | inl e ↦
      let q : c ≡ b = ground (arith, g, e) in
      let i : j ≡ id = ground (arith, e) in
      let m : get id ts ≡ none = ap (λ x. get x ts) (sym i) ∙ k.0 in
      let z = none_primary u id ts (ground (arith, h)) m in rw (z, q) (omega arith)
  | inr e ↦
      let r = no_other u id b ts (ground (arith, h)) (ground (arith, g, e)) k.1 in
      ground (arith, h, e, r)
]

pub some_other :
    (u id : ℕ) (ts : Table GmailAccount)
    → any (is_other_primary u id) ts ≡ true
    → 1 ≤ primaries u ts
unfolding primaries
some_other u id [] h = cc
some_other u id ((j, c) ∷ ts) h = ground (arith, h, some_other u id ts)

-- Keys do not repeat and are below the sequence; no user has two primary accounts.
abbrev pub IsFine : Table GmailAccount → ℕ → Type 0
IsFine ts n = IsKeyed ts × Below n ts × ((u : ℕ) → primaries u ts ≤ 1)

-- A table in order in which the user has one primary account.
abbrev pub HasPrimary : ℕ → Table GmailAccount → ℕ → Type 0
HasPrimary u ts n = IsFine ts n × (primaries u ts ≡ 1)

module _ (u n id : ℕ) (a b : GmailAccount) (ts : Table GmailAccount) where
  others-same : (v : ℕ) → a.user_id ≡ u → b.user_id ≡ u → (v == u) ≡ false → one v a ≡ one v b
  others-same v e f h = ground (arith, e, f, h)

  -- The row becomes primary where no other of the user is.
  pub first-HasPrimary :
      IsFine ts n
      → get id ts ≡ some b
      → a.user_id ≡ u
      → b.user_id ≡ u
      → a.is_primary ≡ true
      → primaries u ts ≡ one u b
      → HasPrimary u (update id a ts) n
  first-HasPrimary (k, l, m) g e f p q =
      let self : primaries u (update id a ts) ≡ 1 =
        let r = primaries-update u id a b ts g in
        let o : one u a ≡ 1 = ground (arith, e, p) in omega (arith, r, o, q) in
      (
        (
          IsKeyed-update id a ts k,
          Below-update n id a ts l,
          λ v. elim (Bool-cases (v == u)) [
            | inl h ↦ let i : v ≡ u = ground (arith, h) in rw i (omega (arith, self))
            | inr h ↦ omega (arith, primaries-update v id a b ts g, others-same v e f h, m v)
          ],
        ),
        self,
      )

  -- The row stays as primary as it was.
  pub kept-HasPrimary :
      IsFine ts n
      → get id ts ≡ some b
      → a.user_id ≡ b.user_id
      → a.is_primary ≡ b.is_primary
      → 1 ≤ primaries u ts
      → HasPrimary u (update id a ts) n
  kept-HasPrimary (k, l, m) g e p q =
      let same : (v : ℕ) → one v a ≡ one v b = λ v. rw (e, p) refl in
      (
        (
          IsKeyed-update id a ts k,
          Below-update n id a ts l,
          λ v. omega (arith, primaries-update v id a b ts g, same v, m v),
        ),
        omega (arith, primaries-update u id a b ts g, same u, m u, q),
      )

one-le :
    (u id : ℕ) (c : GmailAccount) (ts : Table GmailAccount)
    → get id ts ≡ some c
    → one u c ≤ primaries u ts
unfolding primaries
one-le u id c [] h = cc
one-le u id c ((j, d) ∷ ts) h = elim (Bool-cases (j == id)) [
  | inl e ↦ let q : d ≡ c = ground (arith, h, e) in rw q (omega arith)
  | inr e ↦ omega (arith, one-le u id c ts (ground (arith, h, e)))
]

IsFine-clear_primary :
    (u n : ℕ) (ts : Table GmailAccount) → IsFine ts n → IsFine (clear_primary u ts) n
IsFine-clear_primary u n ts (k, l, m) = (
  IsKeyed-clear_primary u ts k,
  Below-clear_primary u n ts l,
  λ v. ground (arith, primaries-clear u v ts, m v),
)

-- The others of the user lose the mark first.
pub cleared-HasPrimary :
    (u n id : ℕ) (a b : GmailAccount) (ts : Table GmailAccount)
    → IsFine ts n
    → get id ts ≡ some b
    → a.user_id ≡ u
    → b.user_id ≡ u
    → a.is_primary ≡ true
    → HasPrimary u (update id a (clear_primary u ts)) n
cleared-HasPrimary u n id a b ts i g e f p =
    let (c, h, s) = get-clear u id b ts g in
    let z : primaries u (clear_primary u ts) ≡ 0 = ground (arith, primaries-clear u u ts) in
    let fine = IsFine-clear_primary u n ts i in
    first-HasPrimary u n id a c (clear_primary u ts) fine h e (s ∙ f) p
      (omega (arith, z, one-le u id c (clear_primary u ts) h))
