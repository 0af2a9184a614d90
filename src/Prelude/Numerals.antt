-- ===== src/Prelude/Numerals.antt =====
-- The decimal digits of a number, as `str` prints them, and the number that digits say.
use Prim.Native.Char.{code}
use Prim.Native.Nat.{ℕ, zero, suc, ◌+◌, ◌-◌, ◌*◌, ◌/◌, ◌%◌, ◌≤◌, ◌<◌}
use Prim.Native.String.{String, ◌++◌}
use text.Mathlib.TextLemmas.{nil-append, cons-append}
use mathlib.Core.Path.{◌≡◌, refl, ◌∙◌}
use mathlib.Core.Logic.{inl, inr}
use mathlib.Core.Bool.{Bool, true, ◌&&◌}
use native.Mathlib.Omega.{arith}
use nance_peer_lend_borrow_p.Prelude.Tests.{ltb, Bool-cases}
use nance_peer_lend_borrow_p.Prelude.Text.{text_len, digit, decimal, show}
use nance_peer_lend_borrow_p.Prelude.Regex.{digit_char}

pub append-len : (s t : String) → text_len (s ++ t) ≡ text_len s + text_len t
unfolding text_len
append-len String.[] t = rw (nil-append t) (omega arith)
append-len (String.◌∷◌ c s) t = rw (cons-append c s t) (omega (arith, append-len s t))

abbrev pub all_digits : String → Bool
all_digits String.[] = true
all_digits (String.◌∷◌ c s) = digit_char (code c) && all_digits s

-- The number that the digits continue.
abbrev pub value : ℕ → String → ℕ
value n String.[] = n
value n (String.◌∷◌ c s) = value (n * 10 + (code c - 48)) s

pub digits-append :
    (s t : String) → all_digits s ≡ true → all_digits t ≡ true → all_digits (s ++ t) ≡ true
digits-append String.[] t h k = rw (nil-append t) k
digits-append (String.◌∷◌ c s) t h k = rw (cons-append c s t) (ground (arith, h, digits-append s t))

pub value-append : (n : ℕ) (s t : String) → value n (s ++ t) ≡ value (value n s) t
value-append n String.[] t = rw (nil-append t) refl
value-append n (String.◌∷◌ c s) t =
    rw (cons-append c s t) (value-append (n * 10 + (code c - 48)) s t)

-- The text has digits only, at least one, and they say the number.
abbrev pub IsNumeral : String → ℕ → Type 0
IsNumeral s n = (all_digits s ≡ true) × (value 0 s ≡ n) × (1 ≤ text_len s)

pub digit-IsNumeral :
    (n : ℕ)
    → n < 10
    → IsNumeral (digit n) n × (text_len (digit n) ≡ 1) × ((m : ℕ) → value m (digit n) ≡ m * 10 + n)
unfolding text_len
digit-IsNumeral zero h = ((refl, refl, omega arith), refl, λ m. refl)
digit-IsNumeral (suc zero) h = ((refl, refl, omega arith), refl, λ m. refl)
digit-IsNumeral (suc (suc zero)) h = ((refl, refl, omega arith), refl, λ m. refl)
digit-IsNumeral (suc (suc (suc zero))) h = ((refl, refl, omega arith), refl, λ m. refl)
digit-IsNumeral (suc (suc (suc (suc zero)))) h = ((refl, refl, omega arith), refl, λ m. refl)
digit-IsNumeral (suc (suc (suc (suc (suc zero))))) h = ((refl, refl, omega arith), refl, λ m. refl)
digit-IsNumeral (suc (suc (suc (suc (suc (suc zero)))))) h =
    ((refl, refl, omega arith), refl, λ m. refl)
digit-IsNumeral (suc (suc (suc (suc (suc (suc (suc zero))))))) h =
    ((refl, refl, omega arith), refl, λ m. refl)
digit-IsNumeral (suc (suc (suc (suc (suc (suc (suc (suc zero)))))))) h =
    ((refl, refl, omega arith), refl, λ m. refl)
digit-IsNumeral (suc (suc (suc (suc (suc (suc (suc (suc (suc zero))))))))) h =
    ((refl, refl, omega arith), refl, λ m. refl)
digit-IsNumeral (suc (suc (suc (suc (suc (suc (suc (suc (suc (suc n)))))))))) h =
    absurd (omega (arith, h))

decimal-IsNumeral : (fuel n : ℕ) → n < fuel → IsNumeral (decimal fuel n) n
unfolding decimal
decimal-IsNumeral zero n h = absurd (omega (arith, h))
decimal-IsNumeral (suc fuel) n h = elim (Bool-cases (ltb n 10)) [
  | inl k ↦ rw k ((digit-IsNumeral n (ground (arith, k))).0)
  | inr k ↦
      let a = decimal-IsNumeral fuel (n / 10) (ground (arith, h, k)) in
      let (b, l, v) = digit-IsNumeral (n % 10) (omega arith) in
      let len = append-len (decimal fuel (n / 10)) (digit (n % 10)) in
      rw k (
        digits-append (decimal fuel (n / 10)) (digit (n % 10)) a.0 b.0,
        value-append 0 (decimal fuel (n / 10)) (digit (n % 10)) ∙ rw a.1 (v (n / 10) ∙ omega arith),
        omega (arith, len, a.2),
      )
]

pub show-IsNumeral : (n : ℕ) → IsNumeral (show n) n
unfolding show
show-IsNumeral n = decimal-IsNumeral (suc n) n (omega arith)
