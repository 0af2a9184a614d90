-- ===== src/Platform/Table.antt =====
-- A database table: rows under their primary keys, in the order in which they were inserted.
use nance_peer_lend_borrow_p.Prelude.{
  ℕ, ◌+◌, ◌<◌, ◌≡◌, refl, Bool, ◌||◌, any, first, select, ◌⊎◌, true, false, Option, none, some,
  List, [], ◌∷◌, arith, ltb, ◌==◌, if◌then◌else◌,
}

abbrev pub Table {ℓ} : Type ℓ → Type ℓ
Table A = List (ℕ × A)

module _ {ℓ} {A : Type ℓ} where
  -- `objects.get(id=k)`, `none` for `DoesNotExist`
  abbrev pub get : ℕ → Table A → Option A
  get k [] = none
  get k ((j, a) ∷ t) = if j == k then some a else get k t

  -- `UPDATE … WHERE id = k`
  abbrev pub update : ℕ → A → Table A → Table A
  update k a [] = []
  update k a ((j, b) ∷ t) = if j == k then (j, a) ∷ t else (j, b) ∷ update k a t

  -- `INSERT` under the key `k`, which is fresh
  abbrev pub insert : ℕ → A → Table A → Table A
  insert k a [] = (k, a) ∷ []
  insert k a (e ∷ t) = e ∷ insert k a t

  -- `DELETE … WHERE id = k`
  abbrev pub delete : ℕ → Table A → Table A
  delete k [] = []
  delete k ((j, a) ∷ t) = if j == k then t else (j, a) ∷ delete k t

  -- Every key is below the sequence's next value.
  abbrev pub Below : ℕ → Table A → Type 0
  Below n [] = Unit
  Below n ((j, a) ∷ t) = (j < n) × Below n t

  -- No key stands twice.
  abbrev pub IsKeyed : Table A → Type ℓ
  IsKeyed [] = Unit
  IsKeyed ((j, a) ∷ t) = (get j t ≡ none) × IsKeyed t

  pub get-update :
      (j k : ℕ) (a b : A) (t : Table A)
      → get k t ≡ some b
      → get j (update k a t) ≡ (if k == j then some a else get j t)
  get-update j k a b [] h = ground arith
  get-update j k a b ((i, c) ∷ t) h = ground (arith, get-update j k a b t)

  pub get-update-none :
      (j k : ℕ) (a : A) (t : Table A) → get j t ≡ none → get j (update k a t) ≡ none
  get-update-none j k a [] h = refl
  get-update-none j k a ((i, c) ∷ t) h = ground (arith, get-update-none j k a t)

  pub get-insert :
      (j k : ℕ) (a : A) (t : Table A)
      → get k t ≡ none
      → get j (insert k a t) ≡ (if k == j then some a else get j t)
  get-insert j k a [] h = refl
  get-insert j k a ((i, c) ∷ t) h = ground (arith, get-insert j k a t)

  pub get_fresh : (k n : ℕ) (t : Table A) → Below n t → ltb k n ≡ false → get k t ≡ none
  get_fresh k n [] b h = refl
  get_fresh k n ((i, c) ∷ t) b h = ground (arith, get_fresh k n t b.1)

  pub get_next : (n : ℕ) (t : Table A) → Below n t → get n t ≡ none
  get_next n t b = get_fresh n n t b (ground arith)

  pub Below-mono : (m n : ℕ) (t : Table A) → Below m t → m < n → Below n t
  Below-mono m n [] b h = tt
  Below-mono m n ((i, c) ∷ t) b h = (omega arith, Below-mono m n t b.1 h)

  pub Below-update : (n k : ℕ) (a : A) (t : Table A) → Below n t → Below n (update k a t)
  Below-update n k a [] b = tt
  Below-update n k a ((i, c) ∷ t) b = ground (arith, Below-update n k a t b.1)

  pub Below-insert : (n : ℕ) (a : A) (t : Table A) → Below n t → Below (n + 1) (insert n a t)
  Below-insert n a [] b = omega arith
  Below-insert n a ((i, c) ∷ t) b = (omega arith, Below-insert n a t b.1)

  pub IsKeyed-update : (k : ℕ) (a : A) (t : Table A) → IsKeyed t → IsKeyed (update k a t)
  IsKeyed-update k a [] h = tt
  IsKeyed-update k a ((i, c) ∷ t) h =
      ground (arith, IsKeyed-update k a t h.1, get-update-none i k a t h.0)

  -- What a row of an updated or extended table is.
  pub get-update_cases :
      (j k : ℕ) (a b c : A) (t : Table A)
      → get k t ≡ some b
      → get j (update k a t) ≡ some c
      → (((k == j) ≡ true) × (k ≡ j) × (c ≡ a)) ⊎ (((k == j) ≡ false) × (get j t ≡ some c))
  get-update_cases j k a b c t h e = ground (arith, get-update j k a b t h)

  pub get-insert_cases :
      (j k : ℕ) (a c : A) (t : Table A)
      → get k t ≡ none
      → get j (insert k a t) ≡ some c
      → (((k == j) ≡ true) × (k ≡ j) × (c ≡ a)) ⊎ (((k == j) ≡ false) × (get j t ≡ some c))
  get-insert_cases j k a c t h e = ground (arith, get-insert j k a t h)

  pub IsKeyed-insert :
      (k : ℕ) (a : A) (t : Table A) → get k t ≡ none → IsKeyed t → IsKeyed (insert k a t)
  IsKeyed-insert k a [] h i = (refl, tt)
  IsKeyed-insert k a ((j, c) ∷ t) h i = ground (arith, IsKeyed-insert k a t, i, get-insert j k a t)

  get-select : (p : ℕ × A → Bool) (k : ℕ) (t : Table A) → get k t ≡ none → get k (select p t) ≡ none
  get-select p k [] h = refl
  get-select p k ((j, c) ∷ t) h = ground (arith, get-select p k t)

  pub IsKeyed-select : (p : ℕ × A → Bool) (t : Table A) → IsKeyed t → IsKeyed (select p t)
  IsKeyed-select p [] i = tt
  IsKeyed-select p ((j, c) ∷ t) i = ground (arith, IsKeyed-select p t i.1, get-select p j t i.0)

  -- The rows of a list stand in the table.
  abbrev pub Rows : Table A → Table A → Type ℓ
  Rows t [] = Unit
  Rows t ((j, a) ∷ rs) = (get j t ≡ some a) × Rows t rs

  pub Rows-update :
      (k : ℕ) (a b : A) (t rs : Table A)
      → get k t ≡ some b
      → get k rs ≡ none
      → Rows t rs
      → Rows (update k a t) rs
  Rows-update k a b t [] h n r = tt
  Rows-update k a b t ((j, c) ∷ rs) h n r =
      ground (arith, get-update j k a b t, Rows-update k a b t rs h, r)

  Rows-cons : (j : ℕ) (a : A) (t rs : Table A) → get j t ≡ none → Rows t rs → Rows ((j, a) ∷ t) rs
  Rows-cons j a t [] n r = tt
  Rows-cons j a t ((i, c) ∷ rs) n r = ground (arith, Rows-cons j a t rs n r.1, r)

  pub Rows-select : (p : ℕ × A → Bool) (t : Table A) → IsKeyed t → Rows t (select p t)
  Rows-select p [] i = tt
  Rows-select p ((j, c) ∷ t) i =
      let rest = Rows-cons j c t (select p t) i.0 (Rows-select p t i.1) in ground (arith, rest)

  -- Searches through an extended or updated table.
  pub any-insert :
      (p : ℕ × A → Bool) (k : ℕ) (a : A) (t : Table A)
      → any p (insert k a t) ≡ (any p t || p (k, a))
  any-insert p k a [] = ground arith
  any-insert p k a ((j, c) ∷ t) = ground (arith, any-insert p k a t)

  pub any-update :
      (p : ℕ × A → Bool) (k : ℕ) (a b : A) (t : Table A)
      → get k t ≡ some b
      → ((j : ℕ) → p (j, a) ≡ p (j, b))
      → any p (update k a t) ≡ any p t
  any-update p k a b [] h same = refl
  any-update p k a b ((j, c) ∷ t) h same = ground (arith, h, same j, any-update p k a b t)

  -- A row that a search returns is the one under its key, where keys do not repeat.
  pub first-keyed :
      (p : ℕ × A → Bool) (id : ℕ) (a : A) (t : Table A)
      → IsKeyed t
      → first p t ≡ some (id, a)
      → get id t ≡ some a
  first-keyed p id a [] k e = cc
  first-keyed p id a ((j, b) ∷ t) k e = ground (arith, e, k.0, first-keyed p id a t k.1)
