-- ===== src/Tests/Mails.antt =====
-- Mails of banks, parsed and ingested.
use Prim.Native.String.{◌++◌}
use nance_peer_lend_borrow_p.Prelude.{
  ◌≡◌, ◌≤◌, refl, some, none, true, false, String, [], ◌∷◌, ◌++◌ as append, arith,
}
use nance_peer_lend_borrow_p.Prelude.Regex.{regex}
use nance_peer_lend_borrow_p.Prelude.Text.{strip, text_len, contains, show}
use nance_peer_lend_borrow_p.Platform.Errors.{ok}
use nance_peer_lend_borrow_p.Platform.World.{World}
use nance_peer_lend_borrow_p.Payments.Gmail.Fields.{
  extract_amount, extract_reference_id, extract_account_hint, compact_description,
}
use nance_peer_lend_borrow_p.Payments.Gmail.Fields.Description.{
  is_compact, compact_description-is_compact,
}
use nance_peer_lend_borrow_p.Payments.Gmail.Parsers.{
  ParsedTransaction, parse, parse_with, extract_counterparty, upi_parser, can_parse, mentions,
  lower_text,
}
use nance_peer_lend_borrow_p.Payments.Gmail.Parsers.Outcome.{IsOutcome, parse-IsOutcome}
use nance_peer_lend_borrow_p.Payments.Gmail.Ingestion.{
  Mail, MailEnv, is_whitelisted_sender, is_stored, ingest_message, show_decimal,
}
use nance_peer_lend_borrow_p.Payments.Gmail.Ingestion.Printed.{extract_amount-show_decimal}
use nance_peer_lend_borrow_p.Payments.Gmail.Ingestion.Names.{KeepsCapitals}
use nance_peer_lend_borrow_p.Payments.Gmail.Ingestion.Storing.{IsStoring}
use nance_peer_lend_borrow_p.Payments.Gmail.Ingestion.Answers.{read, ingest_message-IsStoring}
use nance_peer_lend_borrow_p.Payments.Gmail.Ingestion.Again.{AddsNothing, ingest_message_again}
use nance_peer_lend_borrow_p.Payments.Gmail.Ingestion.Unique.{
  copies, IsUnique, ingest_all, ingest_all-IsUnique,
}
use nance_peer_lend_borrow_p.Payments.Gmail.Body.{
  GmailMessage, part, no_parts, parts, decode_part, extract_plain_text_body,
}
use nance_peer_lend_borrow_p.Payments.Gmail.Body.Order.{
  first_text, all_plain_texts, extract_plain_text_body-first,
}
use nance_peer_lend_borrow_p.Tests.Sample.{env, empty}

abbrev body : String
body = "Rs. 1,250.50 debited from A/C XX1234  to shop@upi. Ref: 123456789"

amount_run : extract_amount body ≡ ok (record { coefficient = 125050; places = 2 })
unfolding extract_amount regex strip
amount_run = refl

ref_run : extract_reference_id body ≡ some "123456789"
unfolding extract_reference_id regex strip
ref_run = refl

hint_run : extract_account_hint body ≡ some "XX1234"
unfolding extract_account_hint regex strip
hint_run = refl

party_run : extract_counterparty upi_parser body ≡ some "shop@upi. Ref"
unfolding extract_counterparty regex strip
party_run = refl

party2_run : extract_counterparty upi_parser "sent to   ab" ≡ some "ab"
unfolding extract_counterparty regex strip
party2_run = refl

desc_run : compact_description "  a  b" "c \n d " ≡ "a b | c d"
unfolding compact_description regex strip
desc_run = refl

abbrev upi_mail : Mail
upi_mail = record {
  gmail_message_id = "m1";
  sender_email = "alerts@mail.hdfcbank.com";
  subject = "upi alert";
  body = "rs. 1,250.50 debited from a/c xx1234 to shop. ref: 123456789";
  received_at = some 900;
}

abbrev banks : MailEnv
banks = record { parse_address = λ s. s; domains = "hdfcbank.com" ∷ [] }

abbrev upi_payment : ParsedTransaction
upi_payment = record {
  channel = "upi";
  amount = record { coefficient = 125050; places = 2 };
  currency = "INR";
  description = "upi alert | rs. 1,250.50 debited from a/c xx1234 to shop. ref: 123456789";
  reference_id = some "123456789";
  account_hint = some "xx1234";
  counterparty = some "shop. ref";
}

capitals : KeepsCapitals env
capitals = ((refl, (refl, (refl, (refl, (refl, (refl, (refl, (refl, tt)))))))), refl)

mail_parses : parse env.lower upi_mail.subject upi_mail.body ≡ ok (read upi_payment)
unfolding parse parse_with regex strip extract_amount extract_reference_id extract_account_hint
    compact_description contains extract_counterparty can_parse mentions
mail_parses = refl

is_bank : is_whitelisted_sender env banks upi_mail.sender_email ≡ true
unfolding is_whitelisted_sender regex
is_bank = refl

is_new : is_stored 1 "m1" empty.db ≡ false
unfolding is_stored
is_new = refl

short_name : text_len upi_mail.gmail_message_id ≤ 64
unfolding text_len
short_name = omega arith

ingest_message-IsStoring_example :
    IsStoring 1 "m1" empty (ingest_message env banks 1 upi_mail empty)
ingest_message-IsStoring_example =
    ingest_message-IsStoring env banks 1 upi_mail empty upi_payment capitals is_bank mail_parses
      is_new refl (omega arith) (omega arith) short_name

abbrev ingested : World
ingested = (ingest_message env banks 1 upi_mail empty).1

ingest_message_again_example :
    AddsNothing ingested
      (ingest_message env banks 1 (record upi_mail { subject = "neft" }) ingested)
ingest_message_again_example =
    ingest_message_again env banks 1 (record upi_mail { subject = "neft" }) ingested
      ingest_message-IsStoring_example.2

empty-IsUnique : IsUnique empty.db.transactions
unfolding copies
empty-IsUnique user_id id = omega arith

ingest_all-IsUnique_example :
    IsUnique
      (ingest_all env banks
        ((1, upi_mail) ∷ (1, upi_mail) ∷ (2, upi_mail) ∷ [])
        empty).db.transactions
ingest_all-IsUnique_example =
    ingest_all-IsUnique env banks ((1, upi_mail) ∷ (1, upi_mail) ∷ (2, upi_mail) ∷ []) empty
      empty-IsUnique

parse-IsOutcome_example :
    IsOutcome
      (lower_text env.lower "upi alert" "your remittance of inr 5")
      "upi alert"
      "your remittance of inr 5"
      (parse env.lower "upi alert" "your remittance of inr 5")
parse-IsOutcome_example = parse-IsOutcome env.lower "upi alert" "your remittance of inr 5"

-- The word "remittance" contains the keyword "emi".
remittance_run :
    parse env.lower "upi alert" "your remittance of inr 5"
    ≡ ok (record { ignored = true; ignored_category = some "emi"; transaction = none })
unfolding parse contains
remittance_run = refl

compact_description-is_compact_example :
    (text_len (compact_description " a \n b" "c") ≤ 240)
    × (is_compact (compact_description " a \n b" "c") ≡ true)
compact_description-is_compact_example = compact_description-is_compact " a \n b" "c"

abbrev message : GmailMessage
message = record {
  data_text = "";
  message_parts =
      parts
        (part "multipart/alternative" "" (
          parts (part "text/html" "x" no_parts)
            (parts (part "text/plain" "hello" no_parts) no_parts)))
        no_parts;
  snippet = "hel";
}

extract_plain_text_body-first_example :
    extract_plain_text_body (λ s. s) (λ s. s) message
    ≡ first_text (
        decode_part (λ s. s) (λ s. s) message.data_text
        ∷ append (all_plain_texts (λ s. s) (λ s. s) message.message_parts) (message.snippet ∷ []))
extract_plain_text_body-first_example = extract_plain_text_body-first (λ s. s) (λ s. s) message

extract_amount-show_decimal_example :
    extract_amount
      ("Rs. " ++ (show_decimal (record { coefficient = 125005; places = 2 }) ++ " debited"))
    ≡ ok (record { coefficient = 125005; places = 2 })
extract_amount-show_decimal_example =
    extract_amount-show_decimal (record { coefficient = 125005; places = 2 }) " debited"
      (omega arith) refl

printed_run : show_decimal (record { coefficient = 125005; places = 2 }) ≡ "1250.05"
unfolding show_decimal show
printed_run = refl
