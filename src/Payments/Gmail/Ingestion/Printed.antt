-- ===== src/Payments/Gmail/Ingestion/Printed.antt =====
-- Amounts as they are printed and read: `str(amount)` of
-- src/apps/payments/services/gmail_ingestion_service.py and `extract_amount` of gmail_parsers/base.py.
use Prim.Native.String.{◌++◌}
use text.Mathlib.TextLemmas.{nil-append, cons-append, append_assoc}
use nance_peer_lend_borrow_p.Prelude.{
  ℕ, zero, suc, ◌≡◌, ◌≤◌, ◌<◌, ◌+◌, ◌*◌, ◌/◌, ◌%◌, refl, ap, ◌∙◌, String, true, ◌⊎◌, inl, inr,
  arith, ltb,
}
use nance_peer_lend_borrow_p.Prelude.Text.{text_len, digit, decimal, show}
use nance_peer_lend_borrow_p.Prelude.Numerals.{
  all_digits, value, digits-append, value-append, digit-IsNumeral, show-IsNumeral, append-len,
}
use nance_peer_lend_borrow_p.Platform.Errors.{Result, ok}
use nance_peer_lend_borrow_p.Payments.Gmail.Fields.{Decimal, amount_group, extract_amount}
use nance_peer_lend_borrow_p.Payments.Gmail.Ingestion.{show_decimal}
use nance_peer_lend_borrow_p.Payments.Gmail.Fields.Digits.{ends_amount}
use nance_peer_lend_borrow_p.Payments.Gmail.Fields.Amount.{
  whole-IsAmount, point-IsAmount, digit_first, read_mark,
}

whole_again :
    (n : ℕ) (t : String)
    → ends_amount t ≡ true
    → extract_amount ("Rs. " ++ (show n ++ t)) ≡ ok (record { coefficient = n; places = 0 })
whole_again n t e =
    let i = show-IsNumeral n in
    let (c, y, q, h) = digit_first n (show n) t i in
    let (g, r) = whole-IsAmount n (show n) t i e in read_mark (show n ++ t) (show n) _ c y q h g r

point_again :
    (n : ℕ) (f t : String)
    → all_digits f ≡ true
    → 1 ≤ text_len f
    → text_len f ≤ 2
    → ends_amount t ≡ true
    → extract_amount ("Rs. " ++ ((show n ++ ("." ++ f)) ++ t))
      ≡ ok (record { coefficient = value n f; places = text_len f })
point_again n f t h l m e =
    let i = show-IsNumeral n in
    let (c, y, q, k) = digit_first n (show n) (("." ++ f) ++ t) i in
    let dot : "." ++ f ≡ String.◌∷◌ "." f =
      cons-append "." "" f ∙ ap (String.◌∷◌ ".") (nil-append f) in
    let (g, r) = point-IsAmount n (show n) f t i h l m e in
    read_mark ((show n ++ ("." ++ f)) ++ t) (show n ++ (String.◌∷◌ "." f)) _ c y
      (append_assoc (show n) ("." ++ f) t ∙ q) k
      (ap (λ z. amount_group ((show n ++ z) ++ t)) dot ∙ g) r

show-digit : (n : ℕ) → n < 10 → show n ≡ digit n
unfolding show decimal
show-digit n h = let k : ltb n 10 ≡ true = ground (arith, h) in rw k refl

-- One digit behind the point, or two.
one_digit :
    (n : ℕ) (m : ℕ)
    → m < 10
    → (all_digits (show m) ≡ true) × (text_len (show m) ≡ 1) × (value n (show m) ≡ n * 10 + m)
one_digit n m h =
    let (i, l, v) = digit-IsNumeral m h in
    (
      ap all_digits (show-digit m h) ∙ i.0,
      ap text_len (show-digit m h) ∙ l,
      ap (value n) (show-digit m h) ∙ v n,
    )

two_digits :
    (n : ℕ) (m k : ℕ)
    → m < 10
    → k < 10
    → (all_digits (show m ++ show k) ≡ true)
      × (text_len (show m ++ show k) ≡ 2)
      × (value n (show m ++ show k) ≡ (n * 10 + m) * 10 + k)
two_digits n m k h g =
    let a = one_digit n m h in
    let b = one_digit (n * 10 + m) k g in
    (
      digits-append (show m) (show k) a.0 b.0,
      append-len (show m) (show k) ∙ omega (arith, a.1, b.1),
      value-append n (show m) (show k) ∙ (ap (λ x. value x (show k)) a.2 ∙ b.2),
    )

places_cases : (n : ℕ) → n ≤ 2 → (n ≡ 0) ⊎ ((n ≡ 1) ⊎ (n ≡ 2))
places_cases zero h = inl refl
places_cases (suc zero) h = inr (inl refl)
places_cases (suc (suc zero)) h = inr (inr refl)
places_cases (suc (suc (suc n))) h = absurd (omega (arith, h))

same_amount :
    (n n' k k' : ℕ)
    → n ≡ n'
    → k ≡ k'
    → ◌≡◌ {A = Result Decimal}
        (ok (record { coefficient = n; places = k }))
        (ok (record { coefficient = n'; places = k' }))
same_amount n n' k k' e f = rw (e, f) refl

-- An amount with at most two decimal places is read from its printed form, behind the mark "Rs. " at the start of
-- a text that goes on with no character of an amount: what is read is the amount with its decimal places.
pub extract_amount-show_decimal :
    (d : Decimal) (rest : String)
    → d.places ≤ 2
    → ends_amount rest ≡ true
    → extract_amount ("Rs. " ++ (show_decimal d ++ rest)) ≡ ok d
unfolding show_decimal
extract_amount-show_decimal d rest h e = elim (places_cases d.places h) [
  | inl z ↦ rw z (whole_again d.coefficient rest e)
  | inr (inl z) ↦
      let f = one_digit (d.coefficient / 10) (d.coefficient % 10) (omega arith) in
      rw z (
        point_again (d.coefficient / 10) (show (d.coefficient % 10)) rest f.0 (omega (arith, f.1))
          (omega (arith, f.1)) e
        ∙ same_amount _ _ _ _ (f.2 ∙ omega arith) f.1)
  | inr (inr z) ↦
      let f =
        two_digits (d.coefficient / 100) (d.coefficient % 100 / 10) (d.coefficient % 10)
          (omega arith) (omega arith) in
      rw z (
        point_again (d.coefficient / 100)
          (show (d.coefficient % 100 / 10) ++ show (d.coefficient % 10)) rest f.0
          (omega (arith, f.1)) (omega (arith, f.1)) e
        ∙ same_amount _ _ _ _ (f.2 ∙ omega arith) f.1)
]
