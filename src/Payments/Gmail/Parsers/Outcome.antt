-- ===== src/Payments/Gmail/Parsers/Outcome.antt =====
-- What the parsers make of a mail (src/apps/payments/services/gmail_parsers/pipeline.py).
use nance_peer_lend_borrow_p.Prelude.{
  ◌≡◌, refl, ap, String, Bool, true, false, Option, none, some, List, [], ◌∷◌, ◌⊎◌, inl, inr,
  Bool-cases, All,
}
use nance_peer_lend_borrow_p.Prelude.Text.{contains}
use nance_peer_lend_borrow_p.Platform.Errors.{Result, ok}
use nance_peer_lend_borrow_p.Payments.Transactions.{then_ok}
use nance_peer_lend_borrow_p.Payments.Gmail.Ignored.{
  IgnoreParser, IgnoreMatch, match, check_ignore, first_keyword,
}
use nance_peer_lend_borrow_p.Payments.Gmail.Parsers.{
  Parser, ParseOutcome, parse, parse_with, first_parser, can_parse, mentions, lower_text,
  ignore_parsers, transaction_parsers,
}

module _ {A : Type 0} where
  -- `x` stands in the list, passes the test, and none before it does.
  abbrev pub IsFirst : (A → Bool) → A → List A → Type 0
  IsFirst p x [] = ⊥
  IsFirst p x (y ∷ ys) = ((y ≡ x) × (p y ≡ true)) ⊎ ((p y ≡ false) × IsFirst p x ys)

  abbrev pub Fails : (A → Bool) → List A → Type 0
  Fails p xs = All (λ x. p x ≡ false) xs

module _ (text : String) where
  -- One of the ignore parser's keywords occurs in the text.
  abbrev pub ignores : IgnoreParser → Bool
  ignores p = mentions p.keywords text

  keyword_found :
      (ks : List String)
      → ((first_keyword text ks ≡ none) × (mentions ks text ≡ false))
        ⊎ ((k : String) × (first_keyword text ks ≡ some k) × (mentions ks text ≡ true))
  unfolding first_keyword mentions
  keyword_found [] = inl (refl, refl)
  keyword_found (k ∷ ks) = elim (Bool-cases (contains k text)) [
    | inl h ↦ rw h (inr (k, refl, refl))
    | inr h ↦ rw h (keyword_found ks)
  ]

  match_found :
      (p : IgnoreParser)
      → ((match p text ≡ none) × (ignores p ≡ false))
        ⊎ ((m : IgnoreMatch) × (match p text ≡ some m)
            × (m.category ≡ p.category)
            × (ignores p ≡ true))
  unfolding match
  match_found p = elim (keyword_found p.keywords) [
    | inl (n, h) ↦ rw (n, h) (inl (refl, refl))
    | inr (k, s, h) ↦ rw (s, h) (inr (_, refl, refl, refl))
  ]

  ignore_found :
      (ps : List IgnoreParser)
      → ((check_ignore text ps ≡ none) × Fails ignores ps)
        ⊎ ((p : IgnoreParser) × (m : IgnoreMatch) × (check_ignore text ps ≡ some m)
            × (m.category ≡ p.category)
            × IsFirst ignores p ps)
  unfolding check_ignore
  ignore_found [] = inl (refl, tt)
  ignore_found (p ∷ ps) = elim (match_found p) [
    | inr (m, s, c, h) ↦ rw s (inr (p, m, refl, c, inl (refl, h)))
    | inl (n, h) ↦ elim (ignore_found ps) [
      | inl (k, f) ↦ rw n (inl (k, (h, f)))
      | inr (q, m, s, c, f) ↦ rw n (inr (q, m, s, c, inr (h, f)))
    ]
  ]

  parser_found :
      (ps : List Parser)
      → ((first_parser text ps ≡ none) × Fails (λ p. can_parse p text) ps)
        ⊎ ((p : Parser) × (first_parser text ps ≡ some p) × IsFirst (λ p. can_parse p text) p ps)
  unfolding first_parser
  parser_found [] = inl (refl, tt)
  parser_found (p ∷ ps) = elim (Bool-cases (can_parse p text)) [
    | inl h ↦ rw h (inr (p, refl, inl (refl, refl)))
    | inr h ↦ rw h (elim (parser_found ps) [
      | inl (k, f) ↦ inl (k, (refl, f))
      | inr (q, s, f) ↦ inr (q, s, inr (refl, f))
    ])
  ]

abbrev outcome : Bool → Option String → ParseOutcome
outcome i c = record { ignored = i; ignored_category = c; transaction = none }

-- The answer to a mail that no ignore parser takes.
abbrev IsReading : String → String → String → Result ParseOutcome → Type 0
IsReading text subject body r =
    (Fails (λ p. can_parse p text) transaction_parsers × (r ≡ ok (outcome false none)))
    ⊎ ((p : Parser) × IsFirst (λ p. can_parse p text) p transaction_parsers
        × (r
            ≡ then_ok (parse_with p subject body)
                λ t. ok (record (outcome false none) { transaction = some t })))

abbrev pub IsOutcome : String → String → String → Result ParseOutcome → Type 0
IsOutcome text subject body r =
    ((p : IgnoreParser) × IsFirst (ignores text) p ignore_parsers
      × (r ≡ ok (outcome true (some p.category))))
    ⊎ (Fails (ignores text) ignore_parsers × IsReading text subject body r)

-- The outcome of a mail, by its text in lower case. Where a keyword of an ignore parser occurs, the mail is
-- ignored under the category of the first such parser. Where none does, the answer is that of the first
-- parser with a keyword in the text, an error if that one finds no amount; with no such parser, the mail is
-- not ignored and has no transaction.
pub parse-IsOutcome :
    (lower : String → String) (subject body : String)
    → IsOutcome (lower_text lower subject body) subject body (parse lower subject body)
unfolding parse
parse-IsOutcome lower subject body =
    let text = lower_text lower subject body in
    elim (ignore_found text ignore_parsers) [
      | inr (p, m, s, c, f) ↦ inl (p, f, rw s (ap (λ x. ok (outcome true (some x))) c))
      | inl (n, f) ↦ inr (
        f,
        elim (parser_found text transaction_parsers) [
          | inl (k, g) ↦ inl (g, rw (n, k) refl)
          | inr (q, s, g) ↦ inr (q, g, rw (n, s) refl)
        ],
      )
    ]
