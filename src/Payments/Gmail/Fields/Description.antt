-- ===== src/Payments/Gmail/Fields/Description.antt =====
-- The description of a payment (`compact_description` of
-- src/apps/payments/services/gmail_parsers/base.py).
use Prim.Native.Char.{code}
use Prim.Native.String.{◌++◌}
use nance_peer_lend_borrow_p.Prelude.{
  ℕ, zero, suc, ◌≡◌, ◌≤◌, refl, String, Bool, true, false, not, ◌&&◌, ◌||◌, inl, inr, arith, ◌==◌,
  Bool-cases,
}
use nance_peer_lend_borrow_p.Prelude.Text.{is_space, text_len, strip}
use nance_peer_lend_borrow_p.Prelude.Regex.{text_take}
use nance_peer_lend_borrow_p.Payments.Gmail.Fields.{squeeze, begins_blank, compact_description}

-- The only white space is the blank, and no two blanks are neighbours.
abbrev pub is_compact : String → Bool
is_compact String.[] = true
is_compact (String.◌∷◌ c s) =
    (not (is_space (code c)) || (code c == 32 && not (begins_blank s))) && is_compact s

take_len : (n : ℕ) (s : String) → text_len (text_take n s) ≤ n
unfolding text_len text_take
take_len zero s = omega arith
take_len (suc n) String.[] = omega arith
take_len (suc n) (String.◌∷◌ c s) = omega (arith, take_len n s)

take_blank : (n : ℕ) (s : String) → begins_blank s ≡ false → begins_blank (text_take n s) ≡ false
unfolding begins_blank text_take
take_blank zero s h = refl
take_blank (suc n) String.[] h = refl
take_blank (suc n) (String.◌∷◌ c s) h = h

take_compact : (n : ℕ) (s : String) → is_compact s ≡ true → is_compact (text_take n s) ≡ true
unfolding text_take
take_compact zero s h = refl
take_compact (suc n) String.[] h = refl
take_compact (suc n) (String.◌∷◌ c s) h = ground (arith, h, take_compact n s, take_blank n s)

squeeze-compact : (s : String) → is_compact (squeeze s) ≡ true
unfolding squeeze is_space
squeeze-compact String.[] = refl
squeeze-compact (String.◌∷◌ c s) = elim (Bool-cases (is_space (code c))) [
  | inr h ↦ ground (arith, h, squeeze-compact s)
  | inl h ↦ elim (Bool-cases (begins_blank (squeeze s))) [
    | inl k ↦ rw (h, k) (squeeze-compact s)
    | inr k ↦ rw (h, k) (rw (k, squeeze-compact s) refl)
  ]
]

-- The description of a payment has at most 240 characters; its only white space is the blank, and no two
-- blanks follow one another.
pub compact_description-is_compact :
    (subject body : String)
    → (text_len (compact_description subject body) ≤ 240)
      × (is_compact (compact_description subject body) ≡ true)
unfolding compact_description
compact_description-is_compact subject body =
    (take_len 240 _, take_compact 240 _ (squeeze-compact (strip subject ++ " | " ++ strip body)))
