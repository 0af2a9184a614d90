-- ===== src/Platform/World.antt =====
-- The state that the services share, and the actions on it: the PostgreSQL tables with their
-- sequences, the Django cache, the Celery queue, the `on_commit` hooks, and the clock. What a
-- transaction writes to the tables is undone when it raises; a sequence, the cache and the queue
-- keep what they were given.
use nance_peer_lend_borrow_p.Prelude.{
  ℕ, ◌*◌, String, Bool, true, false, Option, none, some, List, [], ◌∷◌, ◌++◌, str_eq, ltb, leb,
  ◌==◌, if◌then◌else◌,
}
use nance_peer_lend_borrow_p.Prelude.Text.{text_len}
use nance_peer_lend_borrow_p.Platform.Table.{Table}
use nance_peer_lend_borrow_p.Platform.Errors.{
  Reason, Error, invalid_operation, does_not_exist, data_error, Result, ok, err,
}
use nance_peer_lend_borrow_p.Platform.Rows.Loans.{User, Loan, Repayment}
use nance_peer_lend_borrow_p.Platform.Rows.Payments.{BankTransaction, DiscoveredAccount}
use nance_peer_lend_borrow_p.Platform.Rows.Accounts.{GmailAccount}
use nance_peer_lend_borrow_p.Platform.Rows.Family.{
  Family, FamilyMember, FamilyInvitation, FamilyLedgerEntry,
}
use nance_peer_lend_borrow_p.Platform.Rows.Notices.{
  Payload, Notification, AuditEvent, EntityId, row_id, message_id,
}

-- The tables. The ledger and the audit trail are only appended to: newest first.
pub record Db : Type 0 where
  pub users : Table User
  pub loans : Table Loan
  pub repayments : Table Repayment
  pub transactions : Table BankTransaction
  pub accounts : Table DiscoveredAccount
  pub gmail_accounts : Table GmailAccount
  pub families : Table Family
  pub members : Table FamilyMember
  pub invitations : Table FamilyInvitation
  pub ledger : List FamilyLedgerEntry
  pub notifications : Table Notification
  pub audit : List AuditEvent

-- The next value of each table's sequence.
pub record Sequences : Type 0 where
  pub user : ℕ
  pub loan : ℕ
  pub repayment : ℕ
  pub transaction : ℕ
  pub account : ℕ
  pub gmail_account : ℕ
  pub family : ℕ
  pub member : ℕ
  pub invitation : ℕ
  pub notification : ℕ

-- `_IdempotencyRecord`, with the time at which the cache drops it.
pub record CacheEntry : Type 0 where
  pub loan_id : ℕ
  pub fingerprint : String
  pub expires_at : ℕ

-- The arguments of `queue_notification_task.delay`; the channel is always `in_app`.
pub record Task : Type 0 where
  pub user_id : ℕ
  pub title : String
  pub message : String
  pub notification_type : String
  pub dedupe_key : String
  pub payload : Payload

-- What runs after the commit.
pub data Hook : Type 0 where
  -- `publish_loan_event`
  loan_event : ℕ → Loan → String → Option ℕ → Hook
  -- `publish_notification_event`
  notification_event : ℕ → Notification → String → Hook
  -- `dispatch_pending_notifications_task.delay`
  dispatch_pending : ℕ → Hook

pub record World : Type 0 where
  pub db : Db
  pub seq : Sequences
  pub cache : List (String × CacheEntry)
  pub tasks : List Task
  pub hooks : List Hook
  pub published : List Hook
  pub clock : ℕ
  pub broker_up : Bool

abbrev pub M : Type 0 → Type 0
M A = World → Result A × World

module _ {A : Type 0} where
  abbrev pub pure : A → M A
  pure a w = (ok a, w)

  abbrev pub raise : Error → M A
  raise e w = (err e, w)

  abbrev pub gets : (World → A) → M A
  gets f w = (ok (f w), w)

  -- `objects.get`
  abbrev pub or_missing : Option A → M A
  or_missing none = raise does_not_exist
  or_missing (some a) = pure a

  -- an early return
  abbrev pub or_else : Option A → M A → M A
  or_else none m = m
  or_else (some a) m = pure a

-- Goes on from a result; an exception goes through.
abbrev pub and_then : {A B : Type 0} → Result A × World → (A → M B) → Result B × World
and_then (ok a, w) f = f a w
and_then (err e, w) f = (err e, w)

infixl 5 ◌>>=◌ ◌>>◌
abbrev pub ◌>>=◌ : {A B : Type 0} → M A → (A → M B) → M B
◌>>=◌ m f w = and_then (m w) f

abbrev pub ◌>>◌ : {A B : Type 0} → M A → M B → M B
m >> k = m >>= λ _. k

abbrev pub modify : (World → World) → M (Unit {0})
modify f w = (ok tt, f w)

abbrev pub raise_if : Bool → Error → M (Unit {0})
raise_if c e w = (if c then err e else ok tt, w)

abbrev pub forbid : Bool → Reason → M (Unit {0})
forbid c r = raise_if c (invalid_operation r)

-- `if c:` before an action
abbrev pub when : Bool → M (Unit {0}) → M (Unit {0})
when c m = if c then m else pure tt

abbrev pub write : (Db → Db) → M (Unit {0})
write f w = (ok tt, record w { db = f w.db })

abbrev pub close_transaction : {A : Type 0} → World → Result A × World → Result A × World
close_transaction w (ok a, w') =
    (ok a, record w' { hooks = []; published = w'.hooks ++ w'.published })
close_transaction w (err e, w') = (err e, record w' { db = w.db; hooks = [] })

-- `@transaction.atomic` of the outermost block: no hook is waiting when it begins.
abbrev pub atomic : {A : Type 0} → M A → M A
atomic m w = close_transaction w (m (record w { hooks = [] }))

-- `cache.get`: an entry is gone once its time is over.
abbrev pub cache_get : String → ℕ → List (String × CacheEntry) → Option CacheEntry
cache_get k now [] = none
cache_get k now ((j, e) ∷ c) =
    if str_eq j k then (if ltb now e.expires_at then some e else none) else cache_get k now c

-- One day, in microseconds.
abbrev pub day : ℕ
day = 86400 * 1000000

abbrev pub is_truthy : Option ℕ → Bool
is_truthy none = false
is_truthy (some n) = if n == 0 then false else true

abbrev queue : Task → World → Result (Unit {0}) × World
queue t w =
    if w.broker_up then (ok tt, record w { tasks = t ∷ w.tasks }) else (err Error.broker_error, w)

-- `_queue_notification_on_commit` of the three services.
unfoldable pub queue_notification_on_commit :
    Option ℕ → String → String → String → String → Payload → M (Unit {0})
queue_notification_on_commit none title message kind key payload = pure tt
queue_notification_on_commit (some user_id) title message kind key payload =
    if user_id == 0
    then pure tt
    else queue (record {
      user_id = user_id;
      title = title;
      message = message;
      notification_type = kind;
      dedupe_key = key;
      payload = payload;
    })

-- `transaction.on_commit`
abbrev pub on_commit : Hook → M (Unit {0})
on_commit h w = (ok tt, record w { hooks = h ∷ w.hooks })

-- `max_length=64` of `entity_id`; the text of a row's key is far shorter, as are the names of the fields and states.
abbrev pub fits : EntityId → Bool
fits (row_id n) = true
fits (message_id s) = leb (text_len s) 64

-- `AuditEventService.record_state_change`
unfoldable pub record_state_change : AuditEvent → M (Unit {0})
record_state_change e w =
    if fits e.entity_id
    then (ok tt, record w { db = record w.db { audit = e ∷ w.db.audit } })
    else (err data_error, w)

-- Functions of the platform's libraries: `sha256` of the sorted JSON text of a request, Python's
-- `str.upper` and `str.lower`, `str.isdigit` of one character, and `date.isoformat`.
pub record Env : Type 0 where
  pub digest : Payload → String
  pub upper : String → String
  pub lower : String → String
  pub is_digit : ℕ → Bool
  pub isoformat : ℕ → String
