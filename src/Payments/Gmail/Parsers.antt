-- ===== src/Payments/Gmail/Parsers.antt =====
-- src/apps/payments/services/gmail_parsers/transaction_parsers.py and pipeline.py: the parsers of the
-- banks' mails, and the order in which they are tried.
pub mod Outcome
use Prim.Native.String.{◌++◌}
use nance_peer_lend_borrow_p.Prelude.{
  ℕ, ◌+◌, String, Bool, true, false, Option, none, some, List, [], ◌∷◌, ◌||◌, ◌==◌, any,
  if◌then◌else◌,
}
use nance_peer_lend_borrow_p.Prelude.Text.{contains, strip, is_space}
use nance_peer_lend_borrow_p.Prelude.Regex.{
  Lead, any_case, alphanumeric, literal, spaces, either, one, ◌then◌, between, search_group,
}
use nance_peer_lend_borrow_p.Platform.Errors.{Result, ok, err}
use nance_peer_lend_borrow_p.Payments.Transactions.{then_ok}
use nance_peer_lend_borrow_p.Payments.Gmail.Fields.{
  Decimal, extract_amount, extract_reference_id, extract_account_hint, compact_description,
}
use nance_peer_lend_borrow_p.Payments.Gmail.Ignored.{
  IgnoreMatch, IgnoreParser, credit_card_ignore_parser, marketing_ignore_parser, loan_ignore_parser,
  emi_ignore_parser, check_ignore,
}

pub record ParsedTransaction : Type 0 where
  pub channel : String
  pub amount : Decimal
  pub currency : String
  pub description : String
  pub reference_id : Option String
  pub account_hint : Option String
  pub counterparty : Option String

-- The parsers' classes.
pub data Parser : Type 0 where
  upi_parser neft_parser rtgs_parser atm_parser debit_parser credit_parser : Parser

unfoldable pub channel_of : Parser → String
channel_of upi_parser = "upi"
channel_of neft_parser = "neft"
channel_of rtgs_parser = "rtgs"
channel_of atm_parser = "atm"
channel_of debit_parser = "debit"
channel_of credit_parser = "credit"

unfoldable pub parser_keywords : Parser → List String
parser_keywords upi_parser = "upi" ∷ "vpa" ∷ "collect request" ∷ "upi txn" ∷ []
parser_keywords neft_parser = "neft" ∷ "national electronic funds transfer" ∷ []
parser_keywords rtgs_parser = "rtgs" ∷ "real time gross settlement" ∷ []
parser_keywords atm_parser = "atm" ∷ "cash withdrawal" ∷ "cash deposit" ∷ []
parser_keywords debit_parser = "debited" ∷ "debit" ∷ "withdrawn" ∷ "sent" ∷ []
parser_keywords credit_parser = "credited" ∷ "credit" ∷ "received" ∷ []

-- `f"{subject} {body}".lower()`
abbrev pub lower_text : (String → String) → String → String → String
lower_text lower subject body = lower (subject ++ " " ++ body)

-- `any(keyword in text for keyword in keywords)`
unfoldable pub mentions : List String → String → Bool
mentions ks text = any (λ k. contains k text) ks

-- `can_parse`, for the lower case of subject and body
unfoldable pub can_parse : Parser → String → Bool
unfolding parser_keywords mentions
can_parse p text = mentions (parser_keywords p) text

-- `_counterparty_pattern`
unfoldable pub counterparty_lead : Lead
counterparty_lead = either (literal "to") (literal "from") then one is_space then spaces

abbrev pub counterparty_char : ℕ → Bool
counterparty_char c = alphanumeric c || c == 64 || c == 46 || c == 95 || c == 45 || c == 32

abbrev stripped : Option String → Option String
stripped none = none
stripped (some t) = some (strip t)

unfoldable pub extract_counterparty : Parser → String → Option String
unfolding counterparty_lead
extract_counterparty upi_parser text =
    stripped (search_group counterparty_lead (between 3 80 (any_case counterparty_char)) text)
extract_counterparty _ text = none

-- `parse` of a parser
unfoldable pub parse_with : Parser → String → String → Result ParsedTransaction
unfolding channel_of extract_counterparty
parse_with p subject body =
    let text = subject ++ "\n" ++ body in
    then_ok (extract_amount text) λ amount. ok (record {
      channel = channel_of p;
      amount = amount;
      currency = "INR";
      description = compact_description subject body;
      reference_id = extract_reference_id text;
      account_hint = extract_account_hint text;
      counterparty = extract_counterparty p text;
    })

pub record ParseOutcome : Type 0 where
  pub ignored : Bool
  pub ignored_category : Option String
  pub transaction : Option ParsedTransaction

abbrev pub ignore_parsers : List IgnoreParser
ignore_parsers =
    credit_card_ignore_parser ∷ marketing_ignore_parser ∷ loan_ignore_parser ∷ emi_ignore_parser
    ∷ []

abbrev pub transaction_parsers : List Parser
transaction_parsers =
    upi_parser ∷ neft_parser ∷ rtgs_parser ∷ atm_parser ∷ debit_parser ∷ credit_parser ∷ []

-- The first parser that can parse the text.
unfoldable pub first_parser : String → List Parser → Option Parser
unfolding can_parse
first_parser text [] = none
first_parser text (p ∷ ps) =
    let rest = first_parser text ps in if can_parse p text then some p else rest

abbrev pub parse_found : Option Parser → String → String → Result ParseOutcome
parse_found none subject body =
    ok (record { ignored = false; ignored_category = none; transaction = none })
parse_found (some p) subject body =
    then_ok (parse_with p subject body)
      λ t. ok (record { ignored = false; ignored_category = none; transaction = some t })

abbrev pub parse_unless : Option IgnoreMatch → Result ParseOutcome → Result ParseOutcome
parse_unless (some m) r =
    ok (record { ignored = true; ignored_category = some m.category; transaction = none })
parse_unless none r = r

-- `GmailTransactionParserPipeline.parse`
unfoldable pub parse : (String → String) → String → String → Result ParseOutcome
unfolding check_ignore parse_with first_parser
parse lower subject body =
    let text = lower_text lower subject body in
    parse_unless (check_ignore text ignore_parsers)
      (parse_found (first_parser text transaction_parsers) subject body)
