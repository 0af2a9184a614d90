-- ===== src/Payments/Gmail/Fields/Amount.antt =====
-- What `extract_amount` reads from digits (src/apps/payments/services/gmail_parsers/base.py).
use Prim.Native.Char.{Char, code}
use Prim.Native.String.{◌++◌}
use text.Mathlib.TextLemmas.{nil-append, cons-append, append_assoc, append-nil}
use nance_peer_lend_borrow_p.Prelude.{
  ℕ, ◌≡◌, ◌≤◌, refl, sym, ap, ◌∙◌, String, true, false, some, [], ◌∷◌, arith, ◌++◌ as append,
}
use nance_peer_lend_borrow_p.Prelude.Text.{is_space, text_len}
use nance_peer_lend_borrow_p.Prelude.Numerals.{all_digits, value, IsNumeral}
use nance_peer_lend_borrow_p.Prelude.Regex.{
  digit_char, run, spaces, search_group, first_capture, either, ◌then◌, each, literal, optional,
  one,
}
use nance_peer_lend_borrow_p.Platform.Errors.{ok}
use nance_peer_lend_borrow_p.Payments.Gmail.Fields.{
  Decimal, fraction, decimal_of, amount_char, after_run, cents, amount_group, amount_lead,
  extract_amount, read_amount, or_value_error,
}
use nance_peer_lend_borrow_p.Payments.Gmail.Fields.Digits.{
  long-not_blank, ends_amount, digits-parts, fraction-reads, decimal_of-whole, decimal_of-point,
  decimal_of-first, digits-plain, plain-append, plain_char-solid, read-plain, ends-parts, ends-run,
  run-digits,
}

-- What the group takes of the digits, a point and two digits.
abbrev pub IsAmount : String → String → Decimal → Type 0
IsAmount s t d = (amount_group (s ++ t) ≡ some s) × (read_amount (some s) ≡ ok d)

whole-read :
    (n : ℕ) (s : String)
    → IsNumeral s n
    → decimal_of false 0 s ≡ some (record { coefficient = n; places = 0 })
whole-read n s i =
    let first : decimal_of false 0 s ≡ decimal_of true 0 s =
      ap (decimal_of false 0) (sym (append-nil s))
      ∙ (decimal_of-first s "" i.0 i.2 ∙ ap (decimal_of true 0) (append-nil s)) in
    first ∙ (decimal_of-whole 0 s i.0 ∙ ap (λ x. some (record { coefficient = x; places = 0 })) i.1)

pub whole-IsAmount :
    (n : ℕ) (s t : String)
    → IsNumeral s n
    → ends_amount t ≡ true
    → IsAmount s t (record { coefficient = n; places = 0 })
unfolding amount_group
whole-IsAmount n s t i e =
    let (a, b, c) = ends-run t e in
    let (r, f) = run-digits s t i.0 a b in
    (
      rw (r, f, c, long-not_blank s i.2) (ap some (append-nil s)),
      read-plain s (digits-plain s i.0) ∙ ap or_value_error (whole-read n s i),
    )

cents-takes :
    (f t : String)
    → all_digits f ≡ true
    → 1 ≤ text_len f
    → text_len f ≤ 2
    → ends_amount t ≡ true
    → cents (String.◌∷◌ "." (f ++ t)) ≡ String.◌∷◌ "." f
unfolding cents text_len
cents-takes String.[] t h l m e = absurd (omega (arith, l))
cents-takes (String.◌∷◌ c String.[]) String.[] h l m e =
    let (d, i) = digits-parts c "" h in rw (cons-append c "" "", nil-append "", d) refl
cents-takes (String.◌∷◌ c String.[]) (String.◌∷◌ x t) h l m e =
    let (d, i) = digits-parts c "" h in
    let (a, b) = ends-parts x t e in
    let no : digit_char (code x) ≡ false = ground (arith, a) in
    rw (cons-append c "" (String.◌∷◌ x t), nil-append (String.◌∷◌ x t), d, no) refl
cents-takes (String.◌∷◌ c (String.◌∷◌ g String.[])) t h l m e =
    let (d, i) = digits-parts c (String.◌∷◌ g "") h in
    let (d', i') = digits-parts g "" i in
    rw (cons-append c (String.◌∷◌ g "") t, cons-append g "" t, d, d') refl
cents-takes (String.◌∷◌ c (String.◌∷◌ g (String.◌∷◌ k f))) t h l m e = absurd (omega (arith, m))

point-read :
    (n : ℕ) (s f : String)
    → IsNumeral s n
    → all_digits f ≡ true
    → decimal_of false 0 (s ++ (String.◌∷◌ "." f))
      ≡ some (record { coefficient = value n f; places = text_len f })
point-read n s f i h =
    decimal_of-first s (String.◌∷◌ "." f) i.0 i.2
    ∙ (decimal_of-point 0 s f i.0
        ∙ (ap (λ x. fraction x 0 f) i.1
            ∙ (fraction-reads n 0 f h
                ∙ ap (λ x. some (record { coefficient = value n f; places = x })) (omega arith))))

point_run :
    (x : String)
    → (run amount_char (String.◌∷◌ "." x) ≡ "")
      × (after_run amount_char (String.◌∷◌ "." x) ≡ String.◌∷◌ "." x)
unfolding run after_run
point_run x = (refl, refl)

pub point-IsAmount :
    (n : ℕ) (s f t : String)
    → IsNumeral s n
    → all_digits f ≡ true
    → 1 ≤ text_len f
    → text_len f ≤ 2
    → ends_amount t ≡ true
    → IsAmount (s ++ (String.◌∷◌ "." f)) t (record { coefficient = value n f; places = text_len f })
unfolding amount_group
point-IsAmount n s f t i h l m e =
    let (r, a) =
      run-digits s (String.◌∷◌ "." (f ++ t)) i.0 (point_run (f ++ t)).0 (point_run (f ++ t)).1 in
    let c = cents-takes f t h l m e in
    let q : (s ++ (String.◌∷◌ "." f)) ++ t ≡ s ++ (String.◌∷◌ "." (f ++ t)) =
      append_assoc s (String.◌∷◌ "." f) t ∙ ap (λ x. s ++ x) (cons-append "." f t) in
    let p = plain-append s (String.◌∷◌ "." f) (digits-plain s i.0) (digits-plain f h) in
    (
      rw (q, r, a, c, long-not_blank s i.2) refl,
      read-plain (s ++ (String.◌∷◌ "." f)) p ∙ ap or_value_error (point-read n s f i h),
    )

spaces_after_blank :
    (x : String) → spaces (String.◌∷◌ " " x) ≡ append (spaces x) (String.◌∷◌ " " x ∷ [])
unfolding spaces is_space
spaces_after_blank x = refl

spaces-one :
    (x : String) (c : Char) (y : String)
    → x ≡ String.◌∷◌ c y
    → is_space (code c) ≡ false
    → spaces x ≡ x ∷ []
unfolding spaces
spaces-one x c y e h = rw (e, h) refl

-- The search passes over the mark in front of an amount.
mark_search :
    (x a : String) (c : Char) (y : String)
    → x ≡ String.◌∷◌ c y
    → is_space (code c) ≡ false
    → amount_group x ≡ some a
    → search_group amount_lead amount_group ("Rs. " ++ x) ≡ some a
unfolding search_group first_capture amount_lead either ◌then◌ each literal optional one
mark_search x a c y e h g =
    let q : "Rs. " ++ x ≡ String.◌∷◌ "R" (String.◌∷◌ "s" (String.◌∷◌ "." (String.◌∷◌ " " x))) =
      cons-append "R" "s. " x
      ∙ ap (String.◌∷◌ "R") (
          cons-append "s" ". " x
          ∙ ap (String.◌∷◌ "s") (
              cons-append "." " " x
              ∙ ap (String.◌∷◌ ".") (cons-append " " "" x ∙ ap (String.◌∷◌ " ") (nil-append x)))) in
    rw (q, spaces_after_blank x, spaces-one x c y e h, g) refl

-- A text that begins with a digit.
pub digit_first :
    (n : ℕ) (s t : String)
    → IsNumeral s n
    → (c : Char) × (y : String) × (s ++ t ≡ String.◌∷◌ c y) × (is_space (code c) ≡ false)
unfolding text_len
digit_first n String.[] t i = absurd (omega (arith, i.2))
digit_first n (String.◌∷◌ c s) t i = (
  c,
  s ++ t,
  cons-append c s t,
  plain_char-solid (code c) (ground (arith, (digits-parts c s i.0).0)),
)

-- The mark before what an amount is read from.
pub read_mark :
    (x a : String) (d : Decimal) (c : Char) (y : String)
    → x ≡ String.◌∷◌ c y
    → is_space (code c) ≡ false
    → amount_group x ≡ some a
    → read_amount (some a) ≡ ok d
    → extract_amount ("Rs. " ++ x) ≡ ok d
unfolding extract_amount
read_mark x a d c y e h g r = ap read_amount (mark_search x a c y e h g) ∙ r
