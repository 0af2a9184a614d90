-- ===== src/Payments/Gmail/Fields.antt =====
-- src/apps/payments/services/gmail_parsers/base.py: what a bank's mail says about a payment.
pub mod Description
pub mod Digits
pub mod Amount
use Prim.Native.Char.{Char, code}
use Prim.Native.String.{◌++◌}
use nance_peer_lend_borrow_p.Prelude.{
  ℕ, suc, ◌+◌, ◌-◌, ◌*◌, ◌/◌, ◌%◌, String, Bool, true, false, not, ◌&&◌, ◌||◌, Option, none, some,
  ◌==◌, if◌then◌else◌,
}
use nance_peer_lend_borrow_p.Prelude.Text.{strip, show, is_space, is_empty}
use nance_peer_lend_borrow_p.Prelude.Regex.{
  Lead, Group, any_case, digit_char, alphanumeric, one, literal, spaces, optional, either, ◌then◌,
  run, text_take, at_least, search_group,
}
use nance_peer_lend_borrow_p.Platform.Errors.{Result, ok, err, value_error}

-- A Decimal without a sign: the coefficient, and how many of its digits stand behind the point.
pub record Decimal : Type 0 where
  pub coefficient : ℕ
  pub places : ℕ

-- `Decimal(s)` of a text of digits with at most one point; with no digit at all it raises.
unfoldable pub fraction : ℕ → ℕ → String → Option Decimal
fraction n places String.[] = some (record { coefficient = n; places = places })
fraction n places (String.◌∷◌ c s) =
    let rest = fraction (n * 10 + (code c - 48)) (suc places) s in
    if digit_char (code c) then rest else none

unfoldable pub decimal_of : Bool → ℕ → String → Option Decimal
unfolding fraction
decimal_of seen n String.[] = if seen then some (record { coefficient = n; places = 0 }) else none
decimal_of seen n (String.◌∷◌ c s) =
    let rest = decimal_of true (n * 10 + (code c - 48)) s in
    if digit_char (code c)
    then rest
    else if code c == 46 && (seen || not (is_empty s))
    then fraction n 0 s
    else none

-- `s.replace(c, "")`
unfoldable pub without : ℕ → String → String
without d String.[] = String.[]
without d (String.◌∷◌ c s) =
    let rest = without d s in if code c == d then rest else String.◌∷◌ c rest

-- `amount_pattern`
unfoldable pub amount_lead : Lead
amount_lead =
    either (literal "inr") (either (literal "rs" then optional (one (λ c. c == 46))) (literal "₹"))
    then spaces

abbrev pub amount_char : ℕ → Bool
amount_char c = digit_char c || c == 44

-- What is left after the longest text of a class.
unfoldable pub after_run : (ℕ → Bool) → String → String
after_run p String.[] = String.[]
after_run p (String.◌∷◌ c s) =
    let rest = after_run p s in if p (code c) then rest else String.◌∷◌ c s

-- `(?:\.[0-9]{1,2})?`
unfoldable pub cents : String → String
cents (String.◌∷◌ c (String.◌∷◌ d s)) =
    if code c == 46 && digit_char (code d)
    then String.◌∷◌ c (String.◌∷◌ d (second s))
    else String.[]
  where
    second : String → String
    second String.[] = String.[]
    second (String.◌∷◌ e s) = if digit_char (code e) then String.◌∷◌ e String.[] else String.[]
cents _ = String.[]

-- `([0-9,]+(?:\.[0-9]{1,2})?)`
unfoldable pub amount_group : Group
unfolding after_run cents
amount_group s =
    let whole = run amount_char s in
    if is_empty whole then none else some (whole ++ cents (after_run amount_char s))

abbrev pub or_value_error : {A : Type 0} → Option A → Result A
or_value_error none = err value_error
or_value_error (some a) = ok a

abbrev pub read_amount : Option String → Result Decimal
read_amount none = err value_error
read_amount (some t) = or_value_error (decimal_of false 0 (strip (without 44 t)))

unfoldable pub extract_amount : String → Result Decimal
unfolding amount_group decimal_of without amount_lead
extract_amount text = read_amount (search_group amount_lead amount_group text)

-- `[:\-]`
abbrev separator : ℕ → Bool
separator c = c == 58 || c == 45

-- `reference_pattern`
unfoldable pub reference_lead : Lead
reference_lead =
    either (literal "utr") (
      either (literal "ref" then optional (literal "erence"))
        (literal "txn" then optional (spaces then literal "id")))
    then spaces
    then optional (one separator)
    then spaces

abbrev pub reference_char : ℕ → Bool
reference_char c = alphanumeric c || c == 45

unfoldable pub extract_reference_id : String → Option String
unfolding reference_lead
extract_reference_id = search_group reference_lead (at_least 6 (any_case reference_char))

-- `account_pattern`
unfoldable pub account_lead : Lead
account_lead =
    either (literal "a/c") (
      either (literal "account")
        (either (literal "acct") (either (literal "ending with") (literal "ending"))))
    then spaces
    then optional (one separator)
    then spaces

abbrev pub account_char : ℕ → Bool
account_char c = digit_char c || c == 120 || c == 42

unfoldable pub extract_account_hint : String → Option String
unfolding account_lead
extract_account_hint = search_group account_lead (at_least 2 (any_case account_char))

-- `re.sub(r"\s+", " ", s)`
unfoldable pub begins_blank : String → Bool
begins_blank String.[] = false
begins_blank (String.◌∷◌ c s) = code c == 32

unfoldable pub squeeze : String → String
unfolding begins_blank
squeeze String.[] = String.[]
squeeze (String.◌∷◌ c s) =
    let rest = squeeze s in
    if is_space (code c)
    then (if begins_blank rest then rest else String.◌∷◌ " " rest)
    else String.◌∷◌ c rest

unfoldable pub compact_description : String → String → String
unfolding squeeze
compact_description subject body = text_take 240 (squeeze (strip subject ++ " | " ++ strip body))
