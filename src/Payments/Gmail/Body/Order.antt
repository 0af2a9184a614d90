-- ===== src/Payments/Gmail/Body/Order.antt =====
-- Which text of a Gmail message `extract_plain_text_body` takes
-- (src/apps/payments/services/gmail_ingestion_service.py).
use nance_peer_lend_borrow_p.Prelude.{
  String, ◌≡◌, refl, sym, ap, ◌∙◌, List, [], ◌∷◌, ◌++◌, Bool-cases, inl, inr, if◌then◌else◌,
}
use nance_peer_lend_borrow_p.Prelude.Text.{is_empty, begins}
use nance_peer_lend_borrow_p.Payments.Gmail.Body.{
  Part, Parts, part, no_parts, parts, GmailMessage, or_else_text, decode_part, extract_text,
  extract_nested, extract_plain_text_body,
}

-- The first text that is not empty, or the empty one.
abbrev pub first_text : List String → String
first_text [] = ""
first_text (s ∷ ss) = or_else_text s (first_text ss)

first_text-append :
    (ss ts : List String) → first_text (ss ++ ts) ≡ or_else_text (first_text ss) (first_text ts)
first_text-append [] ts = refl
first_text-append (s ∷ ss) ts = elim (Bool-cases (is_empty s)) [
  | inl h ↦ rw h (first_text-append ss ts)
  | inr h ↦ rw (h, h) refl
]

or_empty : (s : String) → or_else_text s "" ≡ s
or_empty String.[] = refl
or_empty (String.◌∷◌ c s) = refl

module _ (lower decode : String → String) where
  -- The texts of the plain parts, as they are met from the front; what stands inside a plain part is not read.
  unfoldable mutual
    pub plain_texts : Part → List String
    plain_texts (part mime_type data_text ps) =
        let nested = all_plain_texts ps in
        if begins (lower mime_type) "text/plain"
        then decode_part lower decode data_text ∷ []
        else nested

    pub all_plain_texts : Parts → List String
    all_plain_texts no_parts = []
    all_plain_texts (parts p ps) = plain_texts p ++ all_plain_texts ps

  mutual
    unfolding extract_text extract_nested plain_texts all_plain_texts

    text-first : (p : Part) → extract_text lower decode p ≡ first_text (plain_texts p)
    text-first (part mime_type data_text ps) =
        elim (Bool-cases (begins (lower mime_type) "text/plain")) [
          | inl h ↦ rw h (sym (or_empty _))
          | inr h ↦ rw h (nested-first ps)
        ]

    nested-first : (ps : Parts) → extract_nested lower decode ps ≡ first_text (all_plain_texts ps)
    nested-first no_parts = refl
    nested-first (parts p ps) =
        rw (text-first p, nested-first ps)
          (sym (first_text-append (plain_texts p) (all_plain_texts ps)))

  -- The text of a message is the first one that is not empty among the text of its own body, those of its plain
  -- parts in their order, and the snippet.
  pub extract_plain_text_body-first :
      (m : GmailMessage)
      → extract_plain_text_body lower decode m
        ≡ first_text (
            decode_part lower decode m.data_text
            ∷ (all_plain_texts m.message_parts ++ (m.snippet ∷ [])))
  unfolding extract_plain_text_body
  extract_plain_text_body-first m = ap (or_else_text (decode_part lower decode m.data_text)) (
      ap (λ s. or_else_text s m.snippet) (nested-first m.message_parts)
      ∙ (ap (or_else_text (first_text (all_plain_texts m.message_parts))) (sym (or_empty m.snippet))
          ∙ sym (first_text-append (all_plain_texts m.message_parts) (m.snippet ∷ []))))
