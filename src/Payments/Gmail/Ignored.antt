-- ===== src/Payments/Gmail/Ignored.antt =====
-- src/apps/payments/services/gmail_parsers/ignore_parsers.py: mails that are no payments.
use Prim.Native.String.{◌++◌}
use nance_peer_lend_borrow_p.Prelude.{String, Option, none, some, List, [], ◌∷◌, if◌then◌else◌}
use nance_peer_lend_borrow_p.Prelude.Text.{contains}

pub record IgnoreMatch : Type 0 where
  pub category : String
  pub reason : String

pub record IgnoreParser : Type 0 where
  pub category : String
  pub keywords : List String

abbrev pub credit_card_ignore_parser : IgnoreParser
credit_card_ignore_parser = record {
  category = "credit_card";
  keywords = "credit card" ∷ "card statement" ∷ "minimum due" ∷ "card bill" ∷ [];
}

abbrev pub marketing_ignore_parser : IgnoreParser
marketing_ignore_parser = record {
  category = "marketing";
  keywords =
      "offer" ∷ "cashback" ∷ "sale" ∷ "promotional" ∷ "promotion" ∷ "promo" ∷ "limited period"
      ∷ "cross-sell" ∷ "cross sell" ∷ "pre-approved" ∷ "subscribe" ∷ "unsubscribe" ∷ [];
}

abbrev pub loan_ignore_parser : IgnoreParser
loan_ignore_parser = record {
  category = "loan";
  keywords = "loan approved" ∷ "loan application" ∷ "personal loan" ∷ "home loan" ∷ [];
}

abbrev pub emi_ignore_parser : IgnoreParser
emi_ignore_parser = record {
  category = "emi";
  keywords = "emi" ∷ "installment due" ∷ "standing instruction" ∷ "auto debit for emi" ∷ [];
}

-- The first keyword that the text contains, in the order of the keywords.
unfoldable pub first_keyword : String → List String → Option String
first_keyword text [] = none
first_keyword text (k ∷ ks) =
    let rest = first_keyword text ks in if contains k text then some k else rest

abbrev reported : String → Option String → Option IgnoreMatch
reported category none = none
reported category (some k) =
    some (record { category = category; reason = ("Matched keyword '" ++ k) ++ "'." })

-- `BaseIgnoreParser.match`, for the lower case of subject and body
unfoldable pub match : IgnoreParser → String → Option IgnoreMatch
unfolding first_keyword
match p text = reported p.category (first_keyword text p.keywords)

abbrev match_or : Option IgnoreMatch → Option IgnoreMatch → Option IgnoreMatch
match_or none n = n
match_or (some m) n = some m

-- `GmailTransactionParserPipeline._check_ignore`
unfoldable pub check_ignore : String → List IgnoreParser → Option IgnoreMatch
unfolding match
check_ignore text [] = none
check_ignore text (p ∷ ps) = match_or (match p text) (check_ignore text ps)
