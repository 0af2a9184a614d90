-- ===== src/Payments/Gmail/Ingestion/Answers.antt =====
-- `ingest_message` as a whole, and mails in any order
-- (src/apps/payments/services/gmail_ingestion_service.py).
use Prim.Native.String.{◌++◌}
use nance_peer_lend_borrow_p.Prelude.{
  ℕ, ◌≡◌, ◌≤◌, ◌<◌, String, true, false, Option, none, some, arith, is_some,
}
use nance_peer_lend_borrow_p.Prelude.Text.{text_len}
use nance_peer_lend_borrow_p.Platform.Table.{get}
use nance_peer_lend_borrow_p.Platform.Errors.{Result, ok}
use nance_peer_lend_borrow_p.Platform.World.{World, Env}
use nance_peer_lend_borrow_p.Payments.Gmail.Fields.{extract_account_hint}
use nance_peer_lend_borrow_p.Payments.Gmail.Parsers.{
  ParsedTransaction, ParseOutcome, Parser, parse, parse_with, parse_found, first_parser,
  parse_unless, lower_text, ignore_parsers, transaction_parsers,
}
use nance_peer_lend_borrow_p.Payments.Gmail.Ignored.{IgnoreMatch, check_ignore}
use nance_peer_lend_borrow_p.Payments.Gmail.Ingestion.{
  Mail, MailEnv, account_number_of, hundredths, is_stored, ingest_message, ingest_outcome,
  ingest_parsed, is_whitelisted_sender,
}
use nance_peer_lend_borrow_p.Payments.Gmail.Ingestion.Names.{
  IsNumber, KeepsCapitals, infer_bank_name-IsBank, number_of-IsNumber,
}
use nance_peer_lend_borrow_p.Payments.Gmail.Ingestion.Storing.{IsStoring, store_transaction-run}

-- An outcome with a transaction.
abbrev pub read : ParsedTransaction → ParseOutcome
read t = record { ignored = false; ignored_category = none; transaction = some t }

reading-hint :
    (p : Parser) (subject body : String) (t : ParsedTransaction)
    → parse_with p subject body ≡ ok t
    → t.account_hint ≡ extract_account_hint (subject ++ "\n" ++ body)
unfolding parse_with
reading-hint p subject body t h = ground (arith, h)

found-hint :
    (o : Option Parser) (subject body : String) (t : ParsedTransaction)
    → parse_found o subject body ≡ ok (read t)
    → t.account_hint ≡ extract_account_hint (subject ++ "\n" ++ body)
found-hint none subject body t h = ground (arith, h)
found-hint (some p) subject body t h = ground (arith, h, reading-hint p subject body t)

unless-read :
    (i : Option IgnoreMatch) (r : Result ParseOutcome) (t : ParsedTransaction)
    → parse_unless i r ≡ ok (read t)
    → r ≡ ok (read t)
unless-read none r t h = h
unless-read (some m) r t h = ground (arith, h)

parse-hint :
    (lower : String → String) (subject body : String) (t : ParsedTransaction)
    → parse lower subject body ≡ ok (read t)
    → t.account_hint ≡ extract_account_hint (subject ++ "\n" ++ body)
unfolding parse
parse-hint lower subject body t h =
    let text = lower_text lower subject body in
    found-hint (first_parser text transaction_parsers) subject body t
      (unless-read (check_ignore text ignore_parsers) _ t h)

module _ (env : Env) (mails : MailEnv) (user_id : ℕ) (m : Mail) where
  -- A mail of a bank, from which the parsers read a transaction that is not stored yet, is stored: the answer
  -- counts one transaction, the tables have as many more rows as it counts, and the mail is known afterwards.
  -- The user exists, the amount is positive and below the column's bound, the message's name has at most 64 characters, as the audit event's
  -- column allows, and `upper` does not change the banks' names, which are in capitals.
  pub ingest_message-IsStoring :
      (w : World) (t : ParsedTransaction)
      → KeepsCapitals env
      → is_whitelisted_sender env mails m.sender_email ≡ true
      → parse env.lower m.subject m.body ≡ ok (read t)
      → is_stored user_id m.gmail_message_id w.db ≡ false
      → is_some (get user_id w.db.users) ≡ true
      → 1 ≤ hundredths t.amount
      → hundredths t.amount < 1000000000000
      → text_len m.gmail_message_id ≤ 64
      → IsStoring user_id m.gmail_message_id w (ingest_message env mails user_id m w)
  unfolding ingest_message ingest_outcome ingest_parsed
  ingest_message-IsStoring w t capitals bank h new u low high len =
      let number : IsNumber (account_number_of t) =
        rw (parse-hint env.lower m.subject m.body t h)
          (number_of-IsNumber (m.subject ++ "\n" ++ m.body)) in
      rw (bank, h, new)
        (store_transaction-run env user_id m t w number (infer_bank_name-IsBank env capitals m) u
          low high len)
