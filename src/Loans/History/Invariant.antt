-- ===== src/Loans/History/Invariant.antt =====
-- What every history of calls keeps: stored rows are sound, and the audit trail tells each status.
use nance_peer_lend_borrow_p.Prelude.{
  ℕ, ◌≤◌, ◌≡◌, refl, sym, ap, ◌∙◌, inl, inr, ◌&&◌, Bool, true, false, Option, some, none, List, [],
  ◌∷◌, arith, ◌==◌, if◌then◌else◌,
}
use nance_peer_lend_borrow_p.Platform.Table.{
  Table, get, update, insert, Below, IsKeyed, IsKeyed-insert, IsKeyed-update, Below-insert,
  Below-update, get_next, get-update_cases, get-insert_cases,
}
use nance_peer_lend_borrow_p.Platform.Rows.Loans.{Loan, Repayment}
use nance_peer_lend_borrow_p.Platform.Rows.Notices.{
  Value, AuditEvent, EntityType, EntityId, row_id, message_id, loan, repayment, notification,
}
use nance_peer_lend_borrow_p.Loans.History.{
  Core, IsSoundLoan, IsSoundRepayment, Write, Writes, skips, opens, moves, installs, progresses,
  adds, done, more, loan_event, installment_event,
}

abbrev pub entity_eq : EntityType → EntityType → Bool
entity_eq loan loan = true
entity_eq repayment repayment = true
entity_eq notification notification = true
entity_eq EntityType.discovered_account EntityType.discovered_account = true
entity_eq EntityType.gmail_email EntityType.gmail_email = true
entity_eq _ _ = false

abbrev is_row : EntityId → ℕ → Bool
is_row (row_id n) id = n == id
is_row (message_id _) id = false

-- The state that the newest event about a row leads to.
abbrev pub last_state : EntityType → ℕ → List AuditEvent → Option Value
last_state kind id [] = none
last_state kind id (e ∷ es) =
    if entity_eq e.entity_type kind && is_row e.entity_id id
    then some e.to_state
    else last_state kind id es

pub record Inv (c : Core) : Type 0 where
  pub loans_below : Below c.next_loan c.loans
  pub repayments_below : Below c.next_repayment c.repayments
  pub repayments_keyed : IsKeyed c.repayments
  pub loans_sound : (id : ℕ) (l : Loan) → get id c.loans ≡ some l → IsSoundLoan l
  pub repayments_sound :
      (id : ℕ) (r : Repayment) → get id c.repayments ≡ some r → IsSoundRepayment r
  pub loans_told :
      (id : ℕ) (l : Loan)
      → get id c.loans ≡ some l
      → last_state loan id c.audit ≡ some (Value.loan_status l.status)
  pub repayments_told :
      (id : ℕ) (r : Repayment)
      → get id c.repayments ≡ some r
      → last_state repayment id c.audit ≡ some (Value.repayment_status r.status)

-- A property of all rows survives a write of a row that has it.
module _ {A : Type 0} (P : ℕ → A → Type 0) where
  pub after_update :
      (k : ℕ) (a b : A) (t : Table A)
      → get k t ≡ some b
      → P k a
      → ((j : ℕ) (c : A) → get j t ≡ some c → P j c)
      → (j : ℕ) (c : A) → get j (update k a t) ≡ some c
      → P j c
  after_update k a b t h p all j c e = elim (get-update_cases j k a b c t h e) [
    | inl (_, same, eq) ↦ rw (← same, eq) p
    | inr (_, old) ↦ all j c old
  ]

  pub after_insert :
      (k : ℕ) (a : A) (t : Table A)
      → get k t ≡ none
      → P k a
      → ((j : ℕ) (c : A) → get j t ≡ some c → P j c)
      → (j : ℕ) (c : A) → get j (insert k a t) ≡ some c
      → P j c
  after_insert k a t h p all j c e = elim (get-insert_cases j k a c t h e) [
    | inl (_, same, eq) ↦ rw (← same, eq) p
    | inr (_, old) ↦ all j c old
  ]

-- So does the trail, when the row's event goes with the write.
module _ {A : Type 0} (kind : EntityType) (state : A → Value) where
  abbrev pub Told : Table A → List AuditEvent → Type 0
  Told t es = (j : ℕ) (c : A) → get j t ≡ some c → last_state kind j es ≡ some (state c)

  abbrev pub Tells : AuditEvent → ℕ → A → Type 0
  Tells e k a =
      (entity_eq e.entity_type kind ≡ true) × (e.entity_id ≡ row_id k) × (e.to_state ≡ state a)

  last_state_same :
      (e : AuditEvent) (es : List AuditEvent) (k j : ℕ) (a : A)
      → Tells e k a
      → (k == j) ≡ true
      → last_state kind j (e ∷ es) ≡ some (state a)
  last_state_same e es k j a t h = rw (t.0, t.1, h, t.2)

  last_state_other :
      (e : AuditEvent) (es : List AuditEvent) (k j : ℕ) (a : A)
      → Tells e k a
      → (k == j) ≡ false
      → last_state kind j (e ∷ es) ≡ last_state kind j es
  last_state_other e es k j a t h = rw (t.0, t.1, h)

  pub Told-update :
      (k : ℕ) (a b : A) (t : Table A) (e : AuditEvent) (es : List AuditEvent)
      → get k t ≡ some b
      → Tells e k a
      → Told t es
      → Told (update k a t) (e ∷ es)
  Told-update k a b t e es h tells all j c f = elim (get-update_cases j k a b c t h f) [
    | inl (same, _, eq) ↦ rw eq (last_state_same e es k j a tells same)
    | inr (other, old) ↦ last_state_other e es k j a tells other ∙ all j c old
  ]

  pub Told-insert :
      (k : ℕ) (a : A) (t : Table A) (e : AuditEvent) (es : List AuditEvent)
      → get k t ≡ none
      → Tells e k a
      → Told t es
      → Told (insert k a t) (e ∷ es)
  Told-insert k a t e es h tells all j c f = elim (get-insert_cases j k a c t h f) [
    | inl (same, _, eq) ↦ rw eq (last_state_same e es k j a tells same)
    | inr (other, old) ↦ last_state_other e es k j a tells other ∙ all j c old
  ]

Below-le : {A : Type 0} (m n : ℕ) (t : Table A) → Below m t → m ≤ n → Below n t
Below-le m n [] b h = tt
Below-le m n ((i, c) ∷ t) b h = (omega arith, Below-le m n t b.1 h)

-- Every write keeps the invariant.
Write-Inv : {c d : Core} → Write c d → Inv c → Inv d
Write-Inv {c} (skips n m h k) i = record {
  loans_below = Below-le c.next_loan n c.loans i.loans_below h;
  repayments_below = Below-le c.next_repayment m c.repayments i.repayments_below k;
  repayments_keyed = i.repayments_keyed;
  loans_sound = i.loans_sound;
  repayments_sound = i.repayments_sound;
  loans_told = i.loans_told;
  repayments_told = i.repayments_told;
}
Write-Inv {c} (opens l actor p h s) i =
    let free = get_next c.next_loan c.loans i.loans_below in
    record {
      loans_below = Below-insert c.next_loan l c.loans i.loans_below;
      repayments_below = i.repayments_below;
      repayments_keyed = i.repayments_keyed;
      loans_sound = after_insert (λ _ l. IsSoundLoan l) c.next_loan l c.loans free s i.loans_sound;
      repayments_sound = i.repayments_sound;
      loans_told =
          Told-insert loan (λ l. Value.loan_status l.status) c.next_loan l c.loans
            (loan_event c.next_loan Value.null l.status actor p) c.audit free (refl, refl, refl)
            i.loans_told;
      repayments_told = i.repayments_told;
    }
Write-Inv {c} (moves id old new actor p h m t s) i = record {
  loans_below = Below-update c.next_loan id new c.loans i.loans_below;
  repayments_below = i.repayments_below;
  repayments_keyed = i.repayments_keyed;
  loans_sound = after_update (λ _ l. IsSoundLoan l) id new old c.loans h s i.loans_sound;
  repayments_sound = i.repayments_sound;
  loans_told =
      Told-update loan (λ l. Value.loan_status l.status) id new old c.loans
        (loan_event id (Value.loan_status old.status) new.status actor p) c.audit h
        (refl, refl, refl) i.loans_told;
  repayments_told = i.repayments_told;
}
Write-Inv {c} (installs r actor p h s) i =
    let free = get_next c.next_repayment c.repayments i.repayments_below in
    record {
      loans_below = i.loans_below;
      repayments_below = Below-insert c.next_repayment r c.repayments i.repayments_below;
      repayments_keyed = IsKeyed-insert c.next_repayment r c.repayments free i.repayments_keyed;
      loans_sound = i.loans_sound;
      repayments_sound =
          after_insert (λ _ r. IsSoundRepayment r) c.next_repayment r c.repayments free s
            i.repayments_sound;
      loans_told = i.loans_told;
      repayments_told =
          Told-insert repayment (λ r. Value.repayment_status r.status) c.next_repayment r
            c.repayments (installment_event c.next_repayment Value.null r.status actor p) c.audit
            free (refl, refl, refl) i.repayments_told;
    }
Write-Inv {c} (progresses id old new actor p h n m f t s) i = record {
  loans_below = i.loans_below;
  repayments_below = Below-update c.next_repayment id new c.repayments i.repayments_below;
  repayments_keyed = IsKeyed-update id new c.repayments i.repayments_keyed;
  loans_sound = i.loans_sound;
  repayments_sound =
      after_update (λ _ r. IsSoundRepayment r) id new old c.repayments h s i.repayments_sound;
  loans_told = i.loans_told;
  repayments_told =
      Told-update repayment (λ r. Value.repayment_status r.status) id new old c.repayments
        (installment_event id (Value.repayment_status old.status) new.status actor p) c.audit h
        (refl, refl, refl) i.repayments_told;
}
Write-Inv {c} (adds id old new h o n f t s) i = record {
  loans_below = i.loans_below;
  repayments_below = Below-update c.next_repayment id new c.repayments i.repayments_below;
  repayments_keyed = IsKeyed-update id new c.repayments i.repayments_keyed;
  loans_sound = i.loans_sound;
  repayments_sound =
      after_update (λ _ r. IsSoundRepayment r) id new old c.repayments h s i.repayments_sound;
  loans_told = i.loans_told;
  repayments_told =
      after_update (λ j r. last_state repayment j c.audit ≡ some (Value.repayment_status r.status))
        id new old c.repayments h
        (i.repayments_told id old h ∙ ap (λ s. some (Value.repayment_status s)) (o ∙ sym n))
        i.repayments_told;
}

-- So does any number of them.
pub Writes-Inv : {c d : Core} → Writes c d → Inv c → Inv d
Writes-Inv done i = i
Writes-Inv (more s w) i = Write-Inv w (Writes-Inv s i)
