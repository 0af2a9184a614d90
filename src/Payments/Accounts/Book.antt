-- ===== src/Payments/Accounts/Book.antt =====
-- The table of discovered accounts with its audit trail, and the writes that keep it in order
-- (src/apps/payments/services/discovered_account_service.py).
use nance_peer_lend_borrow_p.Prelude.{
  ℕ, ◌+◌, ◌≡◌, refl, sym, ap, ◌∙◌, String, Bool, true, false, ◌||◌, inl, inr, Bool-cases, List, [],
  ◌∷◌, ◌==◌, any, arith, some, eq_iff, if◌then◌else◌,
}
use nance_peer_lend_borrow_p.Platform.Table.{
  Table, get, insert, update, Below, IsKeyed, IsKeyed-insert, IsKeyed-update, Below-insert,
  Below-update, get_next, any-insert, any-update,
}
use nance_peer_lend_borrow_p.Platform.Rows.Payments.{
  DiscoveredAccount, DiscoveredAccountStatus, AccountType,
}
use nance_peer_lend_borrow_p.Platform.Rows.Notices.{Value, AuditEvent, discovered_account}
use nance_peer_lend_borrow_p.Loans.History.Invariant.{
  last_state, Tells, Told-insert, Told-update, after_update,
}
use nance_peer_lend_borrow_p.Payments.Records.{is_account, account_status_eq}

-- Some row is the account of the same user, number, bank and type.
abbrev pub has_account : DiscoveredAccount → Table DiscoveredAccount → Bool
has_account a ts = any (is_account a.user_id a.account_number a.bank a.account_type) ts

-- No account stands in the table twice.
abbrev pub IsDistinct : Table DiscoveredAccount → Type 0
IsDistinct [] = Unit
IsDistinct ((_, a) ∷ ts) = (has_account a ts ≡ false) × IsDistinct ts

-- The same user, number, bank and type.
abbrev pub SameAccount : DiscoveredAccount → DiscoveredAccount → Type 0
SameAccount a b =
    (a.user_id ≡ b.user_id)
    × (a.account_number ≡ b.account_number)
    × (a.bank ≡ b.bank)
    × (a.account_type ≡ b.account_type)

is_account_sym :
    (j k : ℕ) (a b : DiscoveredAccount)
    → is_account a.user_id a.account_number a.bank a.account_type (j, b)
      ≡ is_account b.user_id b.account_number b.bank b.account_type (k, a)
is_account_sym j k a b = ground (
  arith,
  eq_iff a.account_number b.account_number,
  eq_iff b.account_number a.account_number,
  eq_iff a.bank b.bank,
  eq_iff b.bank a.bank,
)

or_false : (a b : Bool) → (a || b) ≡ false → (a ≡ false) × (b ≡ false)
or_false a b h = ground (arith, h)

or_of_false : (a b : Bool) → a ≡ false → b ≡ false → (a || b) ≡ false
or_of_false a b h k = ground (arith, h, k)

IsDistinct-insert :
    (id : ℕ) (a : DiscoveredAccount) (ts : Table DiscoveredAccount)
    → has_account a ts ≡ false
    → IsDistinct ts
    → IsDistinct (insert id a ts)
IsDistinct-insert id a [] h d = (refl, tt)
IsDistinct-insert id a ((j, c) ∷ ts) h d =
    let (here, rest) = or_false _ (has_account a ts) h in
    (
      any-insert (is_account c.user_id c.account_number c.bank c.account_type) id a ts
          ∙ or_of_false (has_account c ts) _ d.0 (is_account_sym id j c a ∙ here),
      IsDistinct-insert id a ts rest d.1,
    )

-- A row that stays the account of the same user, number, bank and type.
is_account_same :
    (j : ℕ) (u : ℕ) (n b : String) (k : AccountType) (a c : DiscoveredAccount)
    → SameAccount a c
    → is_account u n b k (j, a) ≡ is_account u n b k (j, c)
is_account_same j u n b k a c s = rw (s.0, s.1, s.2, s.3) refl

IsDistinct-update :
    (id : ℕ) (a b : DiscoveredAccount) (ts : Table DiscoveredAccount)
    → get id ts ≡ some b
    → SameAccount a b
    → IsDistinct ts
    → IsDistinct (update id a ts)
IsDistinct-update id a b [] h s d = tt
IsDistinct-update id a b ((j, c) ∷ ts) h s d = elim (Bool-cases (j == id)) [
  | inl e ↦
      let q : c ≡ b = ground (arith, h, e) in
      let r : has_account a ts ≡ false = rw (s.0, s.1, s.2, s.3, sym q) d.0 in
      ground (arith, e, r, d.1)
  | inr e ↦
      let k : get id ts ≡ some b = ground (arith, h, e) in
      let r : has_account c (update id a ts) ≡ false =
        any-update (is_account c.user_id c.account_number c.bank c.account_type) id a b ts k
          (λ i. is_account_same i c.user_id c.account_number c.bank c.account_type a b s)
        ∙ d.0 in
      ground (arith, e, r, IsDistinct-update id a b ts k s d.1)
]

pub record IsBook (ts : Table DiscoveredAccount) (es : List AuditEvent) (next : ℕ) : Type 0 where
  pub keyed : IsKeyed ts
  pub below : Below next ts
  pub distinct : IsDistinct ts
  pub told :
      (id : ℕ) (a : DiscoveredAccount)
      → get id ts ≡ some a
      → last_state discovered_account id es ≡ some (Value.account_status a.status)

-- An account is found.
pub finds-IsBook :
    (ts : Table DiscoveredAccount) (es : List AuditEvent) (n : ℕ) (a : DiscoveredAccount)
    (e : AuditEvent)
    → IsBook ts es n
    → has_account a ts ≡ false
    → Tells discovered_account (λ c. Value.account_status c.status) e n a
    → IsBook (insert n a ts) (e ∷ es) (n + 1)
finds-IsBook ts es n a e i h t =
    let fresh = get_next n ts i.below in
    record {
      keyed = IsKeyed-insert n a ts fresh i.keyed;
      below = Below-insert n a ts i.below;
      distinct = IsDistinct-insert n a ts h i.distinct;
      told =
          Told-insert discovered_account (λ c. Value.account_status c.status) n a ts e es fresh t
            i.told;
    }

-- The status of an account changes.
pub marks-IsBook :
    (ts : Table DiscoveredAccount) (es : List AuditEvent) (n id : ℕ) (a b : DiscoveredAccount)
    (e : AuditEvent)
    → IsBook ts es n
    → get id ts ≡ some b
    → SameAccount a b
    → Tells discovered_account (λ c. Value.account_status c.status) e id a
    → IsBook (update id a ts) (e ∷ es) n
marks-IsBook ts es n id a b e i h s t = record {
  keyed = IsKeyed-update id a ts i.keyed;
  below = Below-update n id a ts i.below;
  distinct = IsDistinct-update id a b ts h s i.distinct;
  told =
      Told-update discovered_account (λ c. Value.account_status c.status) id a b ts e es h t i.told;
}

-- An account is counted or touched with its status kept, with no event.
pub keeps-IsBook :
    (ts : Table DiscoveredAccount) (es : List AuditEvent) (n id : ℕ) (a b : DiscoveredAccount)
    → IsBook ts es n
    → get id ts ≡ some b
    → SameAccount a b
    → a.status ≡ b.status
    → IsBook (update id a ts) es n
keeps-IsBook ts es n id a b i h s t = record {
  keyed = IsKeyed-update id a ts i.keyed;
  below = Below-update n id a ts i.below;
  distinct = IsDistinct-update id a b ts h s i.distinct;
  told =
      after_update
        (λ j c. last_state discovered_account j es ≡ some (Value.account_status c.status)) id a b ts
        h (i.told id b h ∙ ap (λ x. some (Value.account_status x)) (sym t)) i.told;
}

account_status-same : (s t : DiscoveredAccountStatus) → account_status_eq s t ≡ true → s ≡ t
account_status-same s t h = ground (arith, h)

-- A status is set, with an event where it changes.
pub marks_or_keeps :
    (ts : Table DiscoveredAccount) (es : List AuditEvent) (n id : ℕ) (a b : DiscoveredAccount)
    (e : AuditEvent)
    → IsBook ts es n
    → get id ts ≡ some b
    → SameAccount a b
    → Tells discovered_account (λ c. Value.account_status c.status) e id a
    → IsBook (update id a ts) (if account_status_eq b.status a.status then es else e ∷ es) n
marks_or_keeps ts es n id a b e i h s t = elim (Bool-cases (account_status_eq b.status a.status)) [
  | inl k ↦ rw k (keeps-IsBook ts es n id a b i h s (sym (account_status-same b.status a.status k)))
  | inr k ↦ rw k (marks-IsBook ts es n id a b e i h s t)
]
