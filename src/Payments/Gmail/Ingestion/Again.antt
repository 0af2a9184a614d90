-- ===== src/Payments/Gmail/Ingestion/Again.antt =====
-- Mails that come again (src/apps/payments/services/gmail_ingestion_service.py).
use nance_peer_lend_borrow_p.Prelude.{
  ℕ, ◌≡◌, refl, true, inl, inr, Option, none, some, arith, Bool-cases,
}
use nance_peer_lend_borrow_p.Platform.Errors.{Result, ok, err}
use nance_peer_lend_borrow_p.Platform.World.{
  World, Env, record_state_change, fits, and_then, pure, ◌>>◌,
}
use nance_peer_lend_borrow_p.Platform.Rows.Notices.{AuditEvent}
use nance_peer_lend_borrow_p.Payments.Gmail.Parsers.{ParsedTransaction, ParseOutcome, parse}
use nance_peer_lend_borrow_p.Payments.Gmail.Ingestion.{
  Mail, MailEnv, Stats, is_stored, ingest_message, ingest_outcome, ingest_parsed, only_event,
  is_whitelisted_sender,
}

-- The answer counts no new row, and the tables of transactions and accounts are as they were.
abbrev pub AddsNothing : World → Result Stats × World → Type 0
AddsNothing w (r, v) =
    (v.db.transactions ≡ w.db.transactions)
    × (v.db.accounts ≡ w.db.accounts)
    × ((s : Stats) → r ≡ ok s → (s.transaction_count ≡ 0) × (s.discovered_account_count ≡ 0))

-- An audit event, stored or refused, is no row of the other tables.
pub event_again :
    (e : AuditEvent) (s : Stats) (w : World)
    → s.transaction_count ≡ 0
    → s.discovered_account_count ≡ 0
    → AddsNothing w ((record_state_change e >> pure s) w)
unfolding record_state_change
event_again e s w a b = elim (Bool-cases (fits e.entity_id)) [
  | inl k ↦ rw k (refl, refl, λ s h. ground (arith, a, b, h))
  | inr k ↦ rw k (refl, refl, λ s h. ground (arith, h))
]

module _ (env : Env) (user_id : ℕ) (m : Mail) (w : World) where
  pub parsed_again :
      (o : Option ParsedTransaction)
      → is_stored user_id m.gmail_message_id w.db ≡ true
      → AddsNothing w (ingest_parsed env user_id m o w)
  unfolding ingest_parsed only_event
  parsed_again none h = event_again _ _ w refl refl
  parsed_again (some t) h = rw h (event_again _ _ w refl refl)

  outcome_again :
      (o : ParseOutcome)
      → is_stored user_id m.gmail_message_id w.db ≡ true
      → AddsNothing w (ingest_outcome env user_id m o w)
  unfolding ingest_outcome
  outcome_again o h = elim (Bool-cases o.ignored) [
    | inl i ↦ rw i (event_again _ _ w refl refl)
    | inr i ↦ rw i (parsed_again o.transaction h)
  ]

  result_again :
      (r : Result ParseOutcome)
      → is_stored user_id m.gmail_message_id w.db ≡ true
      → AddsNothing w (and_then (r, w) (ingest_outcome env user_id m))
  result_again (ok o) h = outcome_again o h
  result_again (err e) h = (refl, refl, λ s k. ground (arith, k))

-- Once a transaction of the user is stored under a message's name, the ingestion of any mail under that name,
-- whatever it says, adds no transaction and no account and counts none.
pub ingest_message_again :
    (env : Env) (mails : MailEnv) (user_id : ℕ) (m : Mail) (w : World)
    → is_stored user_id m.gmail_message_id w.db ≡ true
    → AddsNothing w (ingest_message env mails user_id m w)
unfolding ingest_message only_event
ingest_message_again env mails user_id m w h =
    elim (Bool-cases (is_whitelisted_sender env mails m.sender_email)) [
      | inl b ↦ rw b (result_again env user_id m w (parse env.lower m.subject m.body) h)
      | inr b ↦ rw b (event_again _ _ w refl refl)
    ]
