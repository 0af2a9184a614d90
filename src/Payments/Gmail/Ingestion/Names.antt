-- ===== src/Payments/Gmail/Ingestion/Names.antt =====
-- The account number and the bank that an ingestion writes (`_normalize_account_hint` and
-- `_infer_bank_name` of src/apps/payments/services/gmail_ingestion_service.py).
use Prim.Native.Char.{code}
use Prim.Native.String.{◌++◌}
use nance_peer_lend_borrow_p.Prelude.{
  ℕ, zero, suc, ◌≡◌, ◌≤◌, ◌+◌, ◌-◌, refl, String, Bool, true, false, inl, inr, Option, none, some,
  List, [], ◌∷◌, All, arith, leb, Bool-cases, Option-cases,
}
use nance_peer_lend_borrow_p.Prelude.Text.{is_space, text_len, strip, lstrip, rstrip, contains}
use nance_peer_lend_borrow_p.Prelude.Solid.{is_solid, strip-solid, append_solid}
use nance_peer_lend_borrow_p.Prelude.Numerals.{append-len}
use nance_peer_lend_borrow_p.Prelude.Regex.{
  Lead, Group, run, at_least, any_case, search_group, first_capture, capture_or,
}
use nance_peer_lend_borrow_p.Platform.World.{Env}
use nance_peer_lend_borrow_p.Payments.Gmail.Fields.{
  without, account_char, extract_account_hint, account_lead,
}
use nance_peer_lend_borrow_p.Payments.Gmail.Ingestion.{
  normalize_account_hint, hint_text, or_text, last_four, drop, bank_name, bank_name_patterns, Mail,
  infer_bank_name,
}

without-solid : (c : ℕ) (s : String) → is_solid s ≡ true → is_solid (without c s) ≡ true
unfolding without
without-solid c String.[] h = refl
without-solid c (String.◌∷◌ d s) h = ground (arith, h, without-solid c s)

drop-solid : (n : ℕ) (s : String) → is_solid s ≡ true → is_solid (drop n s) ≡ true
drop-solid zero s h = h
drop-solid (suc n) String.[] h = h
drop-solid (suc n) (String.◌∷◌ d s) h = drop-solid n s (ground (arith, h))

drop-len : (n : ℕ) (s : String) → text_len (drop n s) ≡ text_len s - n
unfolding text_len
drop-len zero s = omega arith
drop-len (suc n) String.[] = omega arith
drop-len (suc n) (String.◌∷◌ d s) = omega (arith, drop-len n s)

run-solid :
    (p : ℕ → Bool)
    → ((c : ℕ) → p c ≡ true → is_space c ≡ false)
    → (s : String) → is_solid (run p s) ≡ true
unfolding run
run-solid p f String.[] = refl
run-solid p f (String.◌∷◌ c s) = elim (Bool-cases (p (code c))) [
  | inl h ↦ rw (h, f (code c) h) (run-solid p f s)
  | inr h ↦ rw h refl
]

module _ (P : String → Type 0) (lead : Lead) (g : Group)
    (sound : (s t : String) → g s ≡ some t → P t) where
  capture_or-holds :
      (a b : Option String) (t : String)
      → capture_or a b ≡ some t
      → (a ≡ some t → P t)
      → (b ≡ some t → P t)
      → P t
  capture_or-holds none b t h f k = k h
  capture_or-holds (some u) b t h f k = f h

  first_capture-holds : (ss : List String) (t : String) → first_capture g ss ≡ some t → P t
  unfolding first_capture
  first_capture-holds [] t h = cc
  first_capture-holds (s ∷ ss) t h =
      capture_or-holds (g s) (first_capture g ss) t h (sound s t) (first_capture-holds ss t)

  -- What a search finds is what the group takes somewhere.
  pub search_group-holds : (s t : String) → search_group lead g s ≡ some t → P t
  unfolding search_group
  search_group-holds String.[] t h = first_capture-holds (lead String.[]) t h
  search_group-holds (String.◌∷◌ c s) t h =
      capture_or-holds _ (search_group lead g s) t h (first_capture-holds (lead (String.◌∷◌ c s)) t)
        (search_group-holds s t)

account_char-solid : (c : ℕ) → any_case account_char c ≡ true → is_space c ≡ false
unfolding is_space
account_char-solid c h = ground (arith, h)

at_least-solid :
    (n : ℕ) (s t : String) → at_least n (any_case account_char) s ≡ some t → is_solid t ≡ true
unfolding at_least
at_least-solid n s t h = ground (arith, h, run-solid (any_case account_char) account_char-solid s)

hint-solid : (text t : String) → extract_account_hint text ≡ some t → is_solid t ≡ true
unfolding extract_account_hint
hint-solid text t h =
    search_group-holds (λ u. is_solid u ≡ true) account_lead (at_least 2 (any_case account_char))
      (at_least-solid 2) text t h

-- The account number that is written for a hint.
abbrev pub number_of : Option String → String
number_of hint = or_text (normalize_account_hint (hint_text hint)) "XXXX"

abbrev pub IsNumber : String → Type 0
IsNumber s = (strip s ≡ s) × (4 ≤ text_len s) × (text_len s ≤ 8)

or_text-long : (s t : String) → 1 ≤ text_len s → or_text s t ≡ s
unfolding text_len
or_text-long String.[] t h = ground (arith, h)
or_text-long (String.◌∷◌ c s) t h = refl

masked-IsNumber :
    (s : String) → is_solid s ≡ true → text_len s ≤ 4 → IsNumber (or_text ("XXXX" ++ s) "XXXX")
unfolding text_len is_space
masked-IsNumber s h k =
    let l : text_len ("XXXX" ++ s) ≡ 4 + text_len s = append-len "XXXX" s in
    rw (or_text-long ("XXXX" ++ s) "XXXX" (omega (arith, l))) (
      strip-solid ("XXXX" ++ s) (append_solid "XXXX" s refl h),
      omega (arith, l),
      omega (arith, l, k),
    )

-- Whatever the hint, the number that is written stays as `strip` leaves it and has 4 to 8 characters.
normalize-IsNumber :
    (hint : String) → is_solid hint ≡ true → IsNumber (or_text (normalize_account_hint hint) "XXXX")
unfolding normalize_account_hint strip text_len lstrip rstrip is_space
normalize-IsNumber hint h =
    let cleaned = without 45 (without 32 hint) in
    let solid = without-solid 45 (without 32 hint) (without-solid 32 hint h) in
    elim (Bool-cases (leb 4 (text_len cleaned))) [
      | inl k ↦ rw k (
          masked-IsNumber (last_four cleaned) (drop-solid (text_len cleaned - 4) cleaned solid)
            (ground (arith, drop-len (text_len cleaned - 4) cleaned)))
      | inr k ↦ rw k (refl, omega arith, omega arith)
    ]

pub number_of-IsNumber : (text : String) → IsNumber (number_of (extract_account_hint text))
unfolding normalize_account_hint strip text_len lstrip rstrip is_space
number_of-IsNumber text = elim (Option-cases (extract_account_hint text)) [
  | inl n ↦ rw n (normalize-IsNumber "" refl)
  | inr (t, e) ↦
      let solid = hint-solid text t e in rw (e, strip-solid t solid) (normalize-IsNumber t solid)
]

-- `upper` leaves the name as it is, and so does `strip`; its length is one that the model takes.
abbrev pub IsBank : Env → String → Type 0
IsBank env s = (env.upper s ≡ s) × (strip s ≡ s) × (2 ≤ text_len s) × (text_len s ≤ 120)

-- `str.upper` does not change the banks' names, which are in capitals.
abbrev pub KeepsCapitals : Env → Type 0
KeepsCapitals env =
    All (λ (p : String × String). env.upper p.1 ≡ p.1) bank_name_patterns
    × (env.upper "UNKNOWN" ≡ "UNKNOWN")

module _ (env : Env) where
  bank_name-IsBank :
      (text : String) (ps : List (String × String))
      → All (λ (p : String × String). IsBank env p.1) ps
      → IsBank env "UNKNOWN"
      → IsBank env (bank_name text ps)
  unfolding bank_name
  bank_name-IsBank text [] h k = k
  bank_name-IsBank text ((p, n) ∷ ps) h k = elim (Bool-cases (contains p text)) [
    | inl e ↦ rw e h.0
    | inr e ↦ rw e (bank_name-IsBank text ps h.1 k)
  ]

  pub infer_bank_name-IsBank : KeepsCapitals env → (m : Mail) → IsBank env (infer_bank_name env m)
  unfolding infer_bank_name strip text_len lstrip rstrip is_space
  infer_bank_name-IsBank h m =
      bank_name-IsBank _ bank_name_patterns
        ((
          (h.0.0, refl, omega arith, omega arith),
          (
            (h.0.1.0, refl, omega arith, omega arith),
            (
              (h.0.1.1.0, refl, omega arith, omega arith),
              (
                (h.0.1.1.1.0, refl, omega arith, omega arith),
                (
                  (h.0.1.1.1.1.0, refl, omega arith, omega arith),
                  (
                    (h.0.1.1.1.1.1.0, refl, omega arith, omega arith),
                    (
                      (h.0.1.1.1.1.1.1.0, refl, omega arith, omega arith),
                      ((h.0.1.1.1.1.1.1.1.0, refl, omega arith, omega arith), tt),
                    ),
                  ),
                ),
              ),
            ),
          ),
        ))
        (h.1, refl, omega arith, omega arith)
