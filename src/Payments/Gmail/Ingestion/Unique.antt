-- ===== src/Payments/Gmail/Ingestion/Unique.antt =====
-- Mails in any order
-- (src/apps/payments/services/gmail_ingestion_service.py).
use nance_peer_lend_borrow_p.Prelude.{
  ℕ, suc, ◌≡◌, ◌≤◌, ◌+◌, refl, sym, ap, ◌∙◌, String, Bool, true, false, ◌&&◌, ◌⊎◌, inl, inr, Option,
  none, some, List, [], ◌∷◌, arith, ◌==◌, Bool-cases, Option-cases, if◌then◌else◌, any, str_eq,
  eq_iff,
}
use nance_peer_lend_borrow_p.Platform.Table.{Table, insert}
use nance_peer_lend_borrow_p.Platform.Errors.{Result, ok, err, Result-cases, Error}
use nance_peer_lend_borrow_p.Platform.Rows.Payments.{BankTransaction}
use nance_peer_lend_borrow_p.Platform.World.{
  Db, World, Env, M, record_state_change, fits, and_then, pure, ◌>>◌,
}
use nance_peer_lend_borrow_p.Payments.Records.{
  transaction_full_clean, create_transaction_row, create_account_row, is_gmail,
}
use nance_peer_lend_borrow_p.Payments.Transactions.{
  build, creation_body, create_transaction, CreateTransaction,
}
use nance_peer_lend_borrow_p.Payments.Accounts.{
  discover, discovery_body, discover_account, count_email,
}
use nance_peer_lend_borrow_p.Platform.Rows.Notices.{AuditEvent}
use nance_peer_lend_borrow_p.Payments.Gmail.Ingestion.Discovery.{creation-run}
use nance_peer_lend_borrow_p.Payments.Gmail.Parsers.{ParsedTransaction, ParseOutcome, parse}
use nance_peer_lend_borrow_p.Payments.Gmail.Ingestion.{
  Mail, MailEnv, Stats, is_stored, ingest_message, ingest_outcome, ingest_parsed, only_event,
  store_transaction, is_whitelisted_sender, transaction_input, account_number_of, infer_bank_name,
  infer_account_type,
}
use nance_peer_lend_borrow_p.Payments.Gmail.Ingestion.Again.{parsed_again, event_again}

-- How many transactions of the user came from the message.
unfoldable pub copies : ℕ → String → Table BankTransaction → ℕ
copies user_id id [] = 0
copies user_id id ((_, t) ∷ ts) =
    let rest = copies user_id id ts in
    if t.user_id == user_id && is_gmail t.source && str_eq t.raw_email_reference_id id
    then suc rest
    else rest

-- No message has given a user two transactions.
abbrev pub IsUnique : Table BankTransaction → Type 0
IsUnique ts = (user_id : ℕ) (id : String) → copies user_id id ts ≤ 1

-- The row came from this message of this user.
abbrev came_from : ℕ → String → BankTransaction → Bool
came_from user_id id t =
    t.user_id == user_id && is_gmail t.source && str_eq t.raw_email_reference_id id

copies-insert :
    (user_id : ℕ) (id : String) (n : ℕ) (t : BankTransaction) (ts : Table BankTransaction)
    → copies user_id id (insert n t ts)
      ≡ copies user_id id ts + (if came_from user_id id t then 1 else 0)
unfolding copies
copies-insert user_id id n t [] = ground arith
copies-insert user_id id n t (x ∷ ts) = ground (arith, copies-insert user_id id n t ts)

copies-any :
    (user_id : ℕ) (id : String) (ts : Table BankTransaction)
    → any (λ (e : ℕ × BankTransaction). came_from user_id id e.1) ts ≡ false
    → copies user_id id ts ≡ 0
unfolding copies
copies-any user_id id [] h = refl
copies-any user_id id (x ∷ ts) h = ground (arith, h, copies-any user_id id ts)

came_same :
    (user_id : ℕ) (id : String) (t : BankTransaction)
    → came_from user_id id t ≡ true
    → (t.user_id ≡ user_id) × (t.raw_email_reference_id ≡ id)
came_same user_id id t h = ground (arith, h, eq_iff t.raw_email_reference_id id)

insert-IsUnique :
    (user_id : ℕ) (id : String) (n : ℕ) (t : BankTransaction) (db : Db)
    → IsUnique db.transactions
    → is_stored user_id id db ≡ false
    → t.user_id ≡ user_id
    → t.raw_email_reference_id ≡ id
    → IsUnique (insert n t db.transactions)
unfolding is_stored
insert-IsUnique user_id id n t db u h e f user_id' id' =
    let c = copies-insert user_id' id' n t db.transactions in
    let z = copies-any user_id id db.transactions h in
    elim (Bool-cases (came_from user_id' id' t)) [
      | inl k ↦
          let (a, b) = came_same user_id' id' t k in rw (c, k, sym a, sym b, e, f, z) (omega arith)
      | inr k ↦ rw (c, k) (omega (arith, u user_id' id'))
    ]

-- The transactions are as they were, or there is one more, which came from the mail.
abbrev Grows : ℕ → String → Db → Db → Type 0
Grows user_id id db new =
    (new.transactions ≡ db.transactions)
    ⊎ ((n : ℕ) × (t : BankTransaction) × (new.transactions ≡ insert n t db.transactions)
        × (t.user_id ≡ user_id)
        × (t.raw_email_reference_id ≡ id)
        × (is_stored user_id id db ≡ false))

Grows-IsUnique :
    (user_id : ℕ) (id : String) (db new : Db)
    → Grows user_id id db new
    → IsUnique db.transactions
    → IsUnique new.transactions
Grows-IsUnique user_id id db new (inl e) u = rw e u
Grows-IsUnique user_id id db new (inr (n, t, e, a, b, h)) u =
    rw e (insert-IsUnique user_id id n t db u h a b)

discovery-keeps :
    (env : Env) (user_id : ℕ) (number bank kind : String) (counts : Bool) (w : World)
    → (discover_account env user_id number bank kind counts w).1.db.transactions ≡ w.db.transactions
unfolding discover_account discovery_body discover count_email create_account_row
    record_state_change
discovery-keeps env user_id number bank kind counts w = ground arith

build-fields :
    (p : CreateTransaction) (now : ℕ) (t : BankTransaction)
    → build now p ≡ ok t
    → (t.user_id ≡ p.user_id) × (t.raw_email_reference_id ≡ p.raw_email_reference_id)
unfolding build
build-fields p now t h = ground (arith, h)

creation_fails :
    (p : CreateTransaction) (w : World) (t : BankTransaction)
    → build w.clock p ≡ ok t
    → transaction_full_clean w.db t ≡ false
    → (create_transaction p w).1.db ≡ w.db
unfolding create_transaction creation_body create_transaction_row
creation_fails p w t h k = rw (h, k) refl

creation_refused :
    (p : CreateTransaction) (w : World) (x : Error)
    → build w.clock p ≡ err x
    → (create_transaction p w).1.db ≡ w.db
unfolding create_transaction creation_body
creation_refused p w x h = rw h refl

creation-Grows :
    (p : CreateTransaction) (w : World)
    → is_stored p.user_id p.raw_email_reference_id w.db ≡ false
    → Grows p.user_id p.raw_email_reference_id w.db (create_transaction p w).1.db
creation-Grows p w h = elim (Result-cases (build w.clock p)) [
  | inr (x, e) ↦ inl (ap (λ (d : Db). d.transactions) (creation_refused p w x e))
  | inl (t, e) ↦ elim (Bool-cases (transaction_full_clean w.db t)) [
    | inl k ↦
        let (a, b) = build-fields p w.clock t e in
        inr (w.seq.transaction, t, ap (λ x. x.1.db.transactions) (creation-run p t w e k), a, b, h)
    | inr k ↦ inl (ap (λ (d : Db). d.transactions) (creation_fails p w t e k))
  ]
]

-- What comes after leaves the transactions as they are.
then-Grows :
    {A B : Type 0} (user_id : ℕ) (id : String) (db : Db) (r : Result A × World) (f : A → M B)
    → ((a : A) (v : World) → (f a v).1.db.transactions ≡ v.db.transactions)
    → Grows user_id id db r.1.db
    → Grows user_id id db (and_then r f).1.db
then-Grows user_id id db (err e, v) f k g = g
then-Grows user_id id db (ok a, v) f k (inl e) = inl (k a v ∙ e)
then-Grows user_id id db (ok a, v) f k (inr (n, t, e, x, y, z)) = inr (n, t, k a v ∙ e, x, y, z)

-- The end of a storing changes no transaction.
rest-keeps :
    {A : Type 0} (r : Result A × World) (e : AuditEvent) (s : Stats)
    → (and_then r λ _. record_state_change e >> pure s).1.db.transactions ≡ r.1.db.transactions
unfolding record_state_change
rest-keeps (ok a, v) e s = elim (Bool-cases (fits e.entity_id)) [
  | inl k ↦ rw k refl
  | inr k ↦ rw k refl
]
rest-keeps (err x, v) e s = refl

store-Grows :
    (env : Env) (user_id : ℕ) (m : Mail) (t : ParsedTransaction) (w : World)
    → is_stored user_id m.gmail_message_id w.db ≡ false
    → Grows user_id m.gmail_message_id w.db (store_transaction env user_id m t w).1.db
unfolding store_transaction
store-Grows env user_id m t w h =
    let p = transaction_input env user_id m t w.clock in
    then-Grows user_id m.gmail_message_id w.db (create_transaction p w) _
      (λ e v.
        rest-keeps
          (discover_account env user_id (account_number_of t) (infer_bank_name env m)
            (infer_account_type env m) true v)
          _ _
        ∙ discovery-keeps env user_id (account_number_of t) (infer_bank_name env m)
            (infer_account_type env m) true v)
      (creation-Grows p w h)

parsed_none :
    (env : Env) (user_id : ℕ) (m : Mail) (w : World)
    → (ingest_parsed env user_id m none w).1.db.transactions ≡ w.db.transactions
unfolding ingest_parsed only_event
parsed_none env user_id m w = (event_again _ _ w refl refl).0

parsed_new :
    (env : Env) (user_id : ℕ) (m : Mail) (t : ParsedTransaction) (w : World)
    → is_stored user_id m.gmail_message_id w.db ≡ false
    → ingest_parsed env user_id m (some t) w ≡ store_transaction env user_id m t w
unfolding ingest_parsed
parsed_new env user_id m t w h = rw h refl

parsed-Grows :
    (env : Env) (user_id : ℕ) (m : Mail) (o : Option ParsedTransaction) (w : World)
    → Grows user_id m.gmail_message_id w.db (ingest_parsed env user_id m o w).1.db
parsed-Grows env user_id m o w = elim (Bool-cases (is_stored user_id m.gmail_message_id w.db)) [
  | inl h ↦ inl ((parsed_again env user_id m w o h).0)
  | inr h ↦ elim (Option-cases o) [
    | inl n ↦ inl (rw n (parsed_none env user_id m w))
    | inr (t, e) ↦ rw (e, parsed_new env user_id m t w h) (store-Grows env user_id m t w h)
  ]
]

outcome-Grows :
    (env : Env) (user_id : ℕ) (m : Mail) (r : Result ParseOutcome) (w : World)
    → Grows user_id m.gmail_message_id w.db (and_then (r, w) (ingest_outcome env user_id m)).1.db
unfolding ingest_outcome
outcome-Grows env user_id m (err e) w = inl refl
outcome-Grows env user_id m (ok o) w = elim (Bool-cases o.ignored) [
  | inl i ↦ rw i (inl ((event_again _ _ w refl refl).0))
  | inr i ↦ rw i (parsed-Grows env user_id m o.transaction w)
]

ingest_message-Grows :
    (env : Env) (mails : MailEnv) (user_id : ℕ) (m : Mail) (w : World)
    → Grows user_id m.gmail_message_id w.db (ingest_message env mails user_id m w).1.db
unfolding ingest_message only_event
ingest_message-Grows env mails user_id m w =
    elim (Bool-cases (is_whitelisted_sender env mails m.sender_email)) [
      | inl b ↦ rw b (outcome-Grows env user_id m (parse env.lower m.subject m.body) w)
      | inr b ↦ rw b (inl ((event_again _ _ w refl refl).0))
    ]

-- Mails for users, one after the other; an error does not keep the next from being ingested.
unfoldable pub ingest_all : Env → MailEnv → List (ℕ × Mail) → World → World
ingest_all env mails [] w = w
ingest_all env mails ((user_id, m) ∷ ms) w =
    ingest_all env mails ms (ingest_message env mails user_id m w).1

-- Where no message has given a user two transactions, none has after any mails are ingested, in any order and
-- whatever fails.
pub ingest_all-IsUnique :
    (env : Env) (mails : MailEnv) (ms : List (ℕ × Mail)) (w : World)
    → IsUnique w.db.transactions
    → IsUnique (ingest_all env mails ms w).db.transactions
unfolding ingest_all
ingest_all-IsUnique env mails [] w u = u
ingest_all-IsUnique env mails ((user_id, m) ∷ ms) w u =
    let v = (ingest_message env mails user_id m w).1 in
    ingest_all-IsUnique env mails ms v (
      Grows-IsUnique user_id m.gmail_message_id w.db v.db
        (ingest_message-Grows env mails user_id m w) u)
