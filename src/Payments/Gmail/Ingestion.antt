-- ===== src/Payments/Gmail/Ingestion.antt =====
-- src/apps/payments/services/gmail_ingestion_service.py: what a bank's mail becomes.
pub mod Names
pub mod Discovery
pub mod Storing
pub mod Answers
pub mod Again
pub mod Unique
pub mod Printed
use Prim.Native.Char.{code}
use Prim.Native.String.{◌++◌}
use nance_peer_lend_borrow_p.Prelude.{
  ℕ, zero, suc, ◌+◌, ◌-◌, ◌*◌, ◌/◌, ◌%◌, String, Bool, true, false, ◌&&◌, ◌||◌, Option, none, some,
  List, [], ◌∷◌, map, ◌==◌, leb, any, str_eq, if◌then◌else◌,
}
use nance_peer_lend_borrow_p.Prelude.Int.{pos}
use nance_peer_lend_borrow_p.Prelude.Text.{strip, text_len, is_empty, contains, show}
use nance_peer_lend_borrow_p.Prelude.Regex.{run, digit_char}
use nance_peer_lend_borrow_p.Platform.Errors.{Result, ok, err}
use nance_peer_lend_borrow_p.Platform.Rows.Payments.{BankTransaction, AccountType}
use nance_peer_lend_borrow_p.Platform.Rows.Notices.{
  Value, Payload, EntityType, message_id, AuditEvent,
}
use nance_peer_lend_borrow_p.Platform.World.{
  Db, M, pure, gets, ◌>>=◌, ◌>>◌, record_state_change, Env,
}
use nance_peer_lend_borrow_p.Payments.Records.{is_account, is_gmail}
use nance_peer_lend_borrow_p.Payments.Transactions.{
  CreateTransaction, create_transaction, account_type_of,
}
use nance_peer_lend_borrow_p.Payments.Accounts.{discover_account}
use nance_peer_lend_borrow_p.Payments.Gmail.Fields.{Decimal, without}
use nance_peer_lend_borrow_p.Payments.Gmail.Parsers.{
  ParsedTransaction, ParseOutcome, parse, mentions, lower_text,
}

pub record Stats : Type 0 where
  pub transaction_count : ℕ
  pub discovered_account_count : ℕ
  pub ignored_count : ℕ

-- A mail as `ingest_message` is given it.
pub record Mail : Type 0 where
  pub gmail_message_id : String
  pub sender_email : String
  pub subject : String
  pub body : String
  pub received_at : Option ℕ

-- `[A-Za-z0-9.-]`
abbrev domain_char : ℕ → Bool
domain_char c =
    digit_char c || (leb 65 c && leb c 90) || (leb 97 c && leb c 122) || c == 46 || c == 45

-- `_sender_domain_pattern.search(address)` with `match.group(1)`; "" stands for no match.
unfoldable pub domain_of : String → String
domain_of String.[] = String.[]
domain_of (String.◌∷◌ c s) =
    let later = domain_of s in
    let here = run domain_char s in if code c == 64 && leb 1 (text_len here) then here else later

-- `s.endswith(t)`
unfoldable pub ends_with : String → String → Bool
ends_with t String.[] = is_empty t
ends_with t (String.◌∷◌ c s) = str_eq t (String.◌∷◌ c s) || ends_with t s

unfoldable pub is_bank_domain : String → String → Bool
unfolding ends_with
is_bank_domain domain allowed = str_eq domain allowed || ends_with ("." ++ allowed) domain

-- `s[-4:]`
abbrev pub drop : ℕ → String → String
drop zero s = s
drop (suc n) String.[] = String.[]
drop (suc n) (String.◌∷◌ c s) = drop n s

abbrev pub last_four : String → String
last_four s = drop (text_len s - 4) s

-- `_normalize_account_hint`
unfoldable pub normalize_account_hint : String → String
unfolding without text_len
normalize_account_hint hint =
    let cleaned = without 45 (without 32 hint) in
    if leb 4 (text_len cleaned) then "XXXX" ++ last_four cleaned else "XXXX"

-- `(parsed.account_hint or "").strip()`
abbrev pub hint_text : Option String → String
hint_text none = ""
hint_text (some t) = strip t

abbrev pub or_text : String → String → String
or_text s t = if is_empty s then t else s

abbrev pub account_number_of : ParsedTransaction → String
account_number_of t = or_text (normalize_account_hint (hint_text t.account_hint)) "XXXX"

abbrev pub bank_name_patterns : List (String × String)
bank_name_patterns =
    ("hdfc", "HDFC")
    ∷ ("icici", "ICICI")
    ∷ ("axis", "AXIS")
    ∷ ("sbi", "SBI")
    ∷ ("kotak", "KOTAK")
    ∷ ("yes bank", "YESBANK")
    ∷ ("indusind", "INDUSIND")
    ∷ ("rbl", "RBL")
    ∷ []

unfoldable pub bank_name : String → List (String × String) → String
bank_name text [] = "UNKNOWN"
bank_name text ((pattern, name) ∷ ps) =
    let rest = bank_name text ps in if contains pattern text then name else rest

-- `str(amount)`
unfoldable pub show_decimal : Decimal → String
show_decimal d =
    if d.places == 0
    then show d.coefficient
    else if d.places == 1
    then show (d.coefficient / 10) ++ "." ++ show (d.coefficient % 10)
    else show (d.coefficient / 100)
      ++ "."
      ++ show (d.coefficient % 100 / 10)
      ++ show (d.coefficient % 10)

-- The amount in hundredths.
abbrev pub hundredths : Decimal → ℕ
hundredths d =
    if d.places == 0
    then d.coefficient * 100
    else if d.places == 1
    then d.coefficient * 10
    else d.coefficient

-- `parseaddr(sender)[1]` of the library, and the setting GMAIL_BANK_SENDER_DOMAINS.
pub record MailEnv : Type 0 where
  pub parse_address : String → String
  pub domains : List String

abbrev received_or : Option ℕ → ℕ → ℕ
received_or none now = now
received_or (some t) now = t

abbrev pub no_stats : Stats
no_stats = record { transaction_count = 0; discovered_account_count = 0; ignored_count = 0 }

abbrev pub one_ignored : Stats
one_ignored = record { transaction_count = 0; discovered_account_count = 0; ignored_count = 1 }

-- `_record_email_event`
abbrev pub email_event : ℕ → String → String → Payload → AuditEvent
email_event user_id id state metadata = record {
  entity_type = EntityType.gmail_email;
  entity_id = message_id id;
  field_name = "status";
  from_state = Value.null;
  to_state = Value.text state;
  actor_id = some user_id;
  metadata = metadata;
}

-- `BankTransaction.objects.filter(…).exists()`
unfoldable pub is_stored : ℕ → String → Db → Bool
is_stored user_id id db =
    any
      (λ (e : ℕ × BankTransaction).
        e.1.user_id == user_id && is_gmail e.1.source && str_eq e.1.raw_email_reference_id id)
      db.transactions

-- The rows of a user's account, for a type that is a choice or not.
abbrev has_type : ℕ → String → String → Option AccountType → Db → Bool
has_type user_id account_number bank none db = false
has_type user_id account_number bank (some k) db =
    any (is_account user_id account_number bank k) db.accounts

-- `_discovered_account_exists`
unfoldable pub discovered_account_exists : ℕ → String → String → String → Db → Bool
discovered_account_exists user_id account_number bank account_type db =
    has_type user_id account_number bank (account_type_of account_type) db

abbrev category_text : Option String → Value
category_text none = Value.null
category_text (some c) = Value.text c

-- An event about the mail, with the sender alone, and the counts.
unfoldable pub only_event : ℕ → Mail → String → Stats → M Stats
only_event user_id m state stats = do
  record_state_change (
      email_event user_id m.gmail_message_id state
        (("sender_email", Value.text m.sender_email) ∷ []))
  pure stats

module _ (env : Env) where
  unfoldable pub infer_bank_name : Mail → String
  unfolding bank_name
  infer_bank_name m =
      bank_name (env.lower (m.sender_email ++ " " ++ m.subject ++ " " ++ m.body)) bank_name_patterns

  unfoldable pub infer_account_type : Mail → String
  infer_account_type m =
      if contains "current" (lower_text env.lower m.subject m.body) then "current" else "savings"

  unfoldable pub infer_direction : Mail → String
  infer_direction m =
      if mentions ("credited" ∷ "credit" ∷ "received" ∷ "deposit" ∷ [])
        (lower_text env.lower m.subject m.body)
      then "credit"
      else "debit"

  abbrev pub transaction_input : ℕ → Mail → ParsedTransaction → ℕ → CreateTransaction
  transaction_input user_id m t now = record {
    user_id = user_id;
    amount = pos (hundredths t.amount);
    transaction_date = received_or m.received_at now;
    narration = t.description;
    direction = infer_direction m;
    account_number = account_number_of t;
    bank = infer_bank_name m;
    account_type = infer_account_type m;
    source = "gmail";
    raw_email_reference_id = m.gmail_message_id;
  }

  abbrev pub parsed_event : ℕ → Mail → ParsedTransaction → AuditEvent
  parsed_event user_id m t = email_event user_id m.gmail_message_id "parsed" (
      ("sender_email", Value.text m.sender_email)
      ∷ ("bank", Value.text (infer_bank_name m))
      ∷ ("account_type", Value.text (infer_account_type m))
      ∷ ("direction", Value.text (infer_direction m))
      ∷ ("amount", Value.text (show_decimal t.amount))
      ∷ [])

  -- The transaction is stored and its account counted.
  unfoldable pub store_transaction : ℕ → Mail → ParsedTransaction → M Stats
  store_transaction user_id m t = do
    now ← gets (λ w. w.clock)
    create_transaction (transaction_input user_id m t now)
    before ← gets (λ w.
        discovered_account_exists user_id (account_number_of t) (infer_bank_name m)
          (infer_account_type m) w.db)
    discover_account env user_id (account_number_of t) (infer_bank_name m) (infer_account_type m)
        true
    record_state_change (parsed_event user_id m t)
    pure (record {
      transaction_count = 1;
      discovered_account_count = if before then 0 else 1;
      ignored_count = 0;
    })

  -- `ingest_message` after the parser, for a mail with a transaction or without
  unfoldable pub ingest_parsed : ℕ → Mail → Option ParsedTransaction → M Stats
  ingest_parsed user_id m none = only_event user_id m "unparsed" no_stats
  ingest_parsed user_id m (some t) = do
    known ← gets (λ w. is_stored user_id m.gmail_message_id w.db)
    if known then only_event user_id m "duplicate" no_stats else store_transaction user_id m t

  unfoldable pub ingest_outcome : ℕ → Mail → ParseOutcome → M Stats
  ingest_outcome user_id m o =
      if o.ignored
      then record_state_change (
          email_event user_id m.gmail_message_id "ignored" (
            ("sender_email", Value.text m.sender_email)
            ∷ ("ignored_category", category_text o.ignored_category)
            ∷ []))
        >> pure one_ignored
      else ingest_parsed user_id m o.transaction

module _ (env : Env) (mails : MailEnv) where
  unfoldable pub is_whitelisted_sender : String → Bool
  unfolding is_bank_domain domain_of
  is_whitelisted_sender sender =
      let domain = domain_of (env.lower (mails.parse_address sender)) in
      leb 1 (text_len domain)
      && any (λ allowed. is_bank_domain domain (env.lower allowed)) mails.domains

  -- A `ValueError` of the parser is not caught.
  unfoldable pub ingest_message : ℕ → Mail → M Stats
  ingest_message user_id m =
      if is_whitelisted_sender m.sender_email
      then (λ w. (parse env.lower m.subject m.body, w)) >>= ingest_outcome env user_id m
      else only_event user_id m "sender_filtered" one_ignored
