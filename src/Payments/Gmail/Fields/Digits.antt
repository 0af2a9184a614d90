-- ===== src/Payments/Gmail/Fields/Digits.antt =====
-- Digits as the amount's pattern and `Decimal` read them
-- (src/apps/payments/services/gmail_parsers/base.py).
use Prim.Native.Char.{Char, code}
use Prim.Native.String.{◌++◌}
use text.Mathlib.TextLemmas.{nil-append, cons-append}
use nance_peer_lend_borrow_p.Prelude.{
  ℕ, suc, ◌≡◌, ◌≤◌, ◌+◌, ◌-◌, ◌*◌, refl, ap, ◌∙◌, String, Bool, true, false, not, ◌&&◌, ◌||◌, some,
  arith, ◌==◌,
}
use nance_peer_lend_borrow_p.Prelude.Text.{is_space, is_empty, text_len, strip}
use nance_peer_lend_borrow_p.Prelude.Numerals.{all_digits, value}
use nance_peer_lend_borrow_p.Prelude.Regex.{digit_char, run}
use nance_peer_lend_borrow_p.Payments.Gmail.Fields.{
  fraction, decimal_of, without, amount_char, after_run, cents, read_amount, or_value_error,
}
use nance_peer_lend_borrow_p.Prelude.Solid.{is_solid, strip-solid}

pub long-not_blank : (s : String) → 1 ≤ text_len s → is_empty s ≡ false
unfolding text_len
long-not_blank String.[] h = absurd (omega (arith, h))
long-not_blank (String.◌∷◌ c s) h = refl

-- The text does not go on with what could belong to an amount.
abbrev pub ends_amount : String → Bool
ends_amount String.[] = true
ends_amount (String.◌∷◌ c s) = not (amount_char (code c)) && not (code c == 46)

pub digits-parts :
    (c : Char) (s : String)
    → all_digits (String.◌∷◌ c s) ≡ true
    → (digit_char (code c) ≡ true) × (all_digits s ≡ true)
digits-parts c s h = ground (arith, h)

pub fraction-reads :
    (n k : ℕ) (s : String)
    → all_digits s ≡ true
    → fraction n k s ≡ some (record { coefficient = value n s; places = k + text_len s })
unfolding fraction text_len
fraction-reads n k String.[] h =
    ap (λ x. some (record { coefficient = n; places = x })) (omega arith)
fraction-reads n k (String.◌∷◌ c s) h =
    let (d, e) = digits-parts c s h in
    rw d (
      fraction-reads (n * 10 + (code c - 48)) (suc k) s e
      ∙ ap (λ x. some (record { coefficient = value (n * 10 + (code c - 48)) s; places = x }))
          (omega arith))

pub decimal_of-whole :
    (n : ℕ) (s : String)
    → all_digits s ≡ true
    → decimal_of true n s ≡ some (record { coefficient = value n s; places = 0 })
unfolding decimal_of
decimal_of-whole n String.[] h = refl
decimal_of-whole n (String.◌∷◌ c s) h =
    let (d, e) = digits-parts c s h in rw d (decimal_of-whole (n * 10 + (code c - 48)) s e)

pub decimal_of-point :
    (n : ℕ) (s f : String)
    → all_digits s ≡ true
    → decimal_of true n (s ++ (String.◌∷◌ "." f)) ≡ fraction (value n s) 0 f
unfolding decimal_of
decimal_of-point n String.[] f h = rw (nil-append (String.◌∷◌ "." f)) refl
decimal_of-point n (String.◌∷◌ c s) f h =
    let (d, e) = digits-parts c s h in
    rw (cons-append c s (String.◌∷◌ "." f), d) (decimal_of-point (n * 10 + (code c - 48)) s f e)

-- A text that begins with a digit is read as one whose first digit has been seen.
pub decimal_of-first :
    (s t : String)
    → all_digits s ≡ true
    → 1 ≤ text_len s
    → decimal_of false 0 (s ++ t) ≡ decimal_of true 0 (s ++ t)
unfolding decimal_of text_len
decimal_of-first String.[] t h k = absurd (omega (arith, k))
decimal_of-first (String.◌∷◌ c s) t h k =
    let (d, e) = digits-parts c s h in rw (cons-append c s t, d) refl

-- Digits and points only.
abbrev is_plain : String → Bool
is_plain String.[] = true
is_plain (String.◌∷◌ c s) = (digit_char (code c) || code c == 46) && is_plain s

pub digits-plain : (s : String) → all_digits s ≡ true → is_plain s ≡ true
digits-plain String.[] h = refl
digits-plain (String.◌∷◌ c s) h = ground (arith, h, digits-plain s)

pub plain-append : (s t : String) → is_plain s ≡ true → is_plain t ≡ true → is_plain (s ++ t) ≡ true
plain-append String.[] t h k = rw (nil-append t) k
plain-append (String.◌∷◌ c s) t h k = rw (cons-append c s t) (ground (arith, h, plain-append s t))

pub plain_char-solid : (c : ℕ) → (digit_char c || c == 46) ≡ true → is_space c ≡ false
unfolding is_space
plain_char-solid c h = ground (arith, h)

plain-parts :
    (c : Char) (s : String)
    → is_plain (String.◌∷◌ c s) ≡ true
    → ((digit_char (code c) || code c == 46) ≡ true) × (is_plain s ≡ true)
plain-parts c s h = ground (arith, h)

plain-solid : (s : String) → is_plain s ≡ true → is_solid s ≡ true
plain-solid String.[] h = refl
plain-solid (String.◌∷◌ c s) h =
    let (d, e) = plain-parts c s h in rw (plain_char-solid (code c) d) (plain-solid s e)

plain-without : (s : String) → is_plain s ≡ true → without 44 s ≡ s
unfolding without
plain-without String.[] h = refl
plain-without (String.◌∷◌ c s) h =
    let e : (code c == 44) ≡ false = ground (arith, h) in
    rw e (ap (String.◌∷◌ c) (plain-without s (ground (arith, h))))

pub read-plain :
    (s : String) → is_plain s ≡ true → read_amount (some s) ≡ or_value_error (decimal_of false 0 s)
read-plain s h =
    ap (λ x. or_value_error (decimal_of false 0 x))
      (ap strip (plain-without s h) ∙ strip-solid s (plain-solid s h))

pub ends-parts :
    (c : Char) (t : String)
    → ends_amount (String.◌∷◌ c t) ≡ true
    → (amount_char (code c) ≡ false) × ((code c == 46) ≡ false)
ends-parts c t e = ground (arith, e)

pub ends-run :
    (t : String)
    → ends_amount t ≡ true
    → (run amount_char t ≡ "") × (after_run amount_char t ≡ t) × (cents t ≡ "")
unfolding run after_run cents
ends-run String.[] e = (refl, refl, refl)
ends-run (String.◌∷◌ c String.[]) e =
    let (a, b) = ends-parts c String.[] e in rw a (refl, refl, refl)
ends-run (String.◌∷◌ c (String.◌∷◌ d t)) e =
    let (a, b) = ends-parts c (String.◌∷◌ d t) e in rw (a, b) (refl, refl, refl)

-- The digits are taken up to where the class ends.
pub run-digits :
    (s t : String)
    → all_digits s ≡ true
    → run amount_char t ≡ ""
    → after_run amount_char t ≡ t
    → (run amount_char (s ++ t) ≡ s) × (after_run amount_char (s ++ t) ≡ t)
unfolding run after_run
run-digits String.[] t h e f = rw (nil-append t) (e, f)
run-digits (String.◌∷◌ c s) t h e f =
    let (d, i) = digits-parts c s h in
    let (a, b) = run-digits s t i e f in rw (cons-append c s t, d) (ap (String.◌∷◌ c) a, b)
