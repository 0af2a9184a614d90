-- ===== src/Platform/Order.antt =====
-- `order_by` of a query: the rows by a comparison, equal rows in the order of the table.
use nance_peer_lend_borrow_p.Prelude.{
  ℕ, ◌≡◌, refl, Bool, false, some, none, [], ◌∷◌, arith, ◌==◌, if◌then◌else◌,
}
use nance_peer_lend_borrow_p.Platform.Table.{Table, get, IsKeyed, Rows}

module _ {ℓ} {A : Type ℓ} (before : A → A → Bool) where
  abbrev pub insert_in_order : ℕ → A → Table A → Table A
  insert_in_order k a [] = (k, a) ∷ []
  insert_in_order k a ((j, b) ∷ t) =
      if before a b then (k, a) ∷ (j, b) ∷ t else (j, b) ∷ insert_in_order k a t

  abbrev pub order_by : Table A → Table A
  order_by [] = []
  order_by ((k, a) ∷ t) = insert_in_order k a (order_by t)

  get-insert_in_order :
      (i k : ℕ) (a : A) (t : Table A)
      → (k == i) ≡ false
      → get i t ≡ none
      → get i (insert_in_order k a t) ≡ none
  get-insert_in_order i k a [] n h = rw n refl
  get-insert_in_order i k a ((j, b) ∷ t) n h = ground (arith, get-insert_in_order i k a t n)

  get-order_by : (i : ℕ) (t : Table A) → get i t ≡ none → get i (order_by t) ≡ none
  get-order_by i [] h = refl
  get-order_by i ((k, a) ∷ t) h =
      ground (arith, get-order_by i t, get-insert_in_order i k a (order_by t))

  IsKeyed-insert_in_order :
      (k : ℕ) (a : A) (t : Table A) → get k t ≡ none → IsKeyed t → IsKeyed (insert_in_order k a t)
  IsKeyed-insert_in_order k a [] h i = (refl, tt)
  IsKeyed-insert_in_order k a ((j, b) ∷ t) h i =
      ground (arith, IsKeyed-insert_in_order k a t, get-insert_in_order j k a t, i)

  pub IsKeyed-order_by : (t : Table A) → IsKeyed t → IsKeyed (order_by t)
  IsKeyed-order_by [] i = tt
  IsKeyed-order_by ((k, a) ∷ t) i =
      IsKeyed-insert_in_order k a (order_by t) (get-order_by k t i.0) (IsKeyed-order_by t i.1)

  Rows-insert_in_order :
      (u : Table A) (k : ℕ) (a : A) (t : Table A)
      → get k u ≡ some a
      → Rows u t
      → Rows u (insert_in_order k a t)
  Rows-insert_in_order u k a [] h r = (h, tt)
  Rows-insert_in_order u k a ((j, b) ∷ t) h r =
      ground (arith, Rows-insert_in_order u k a t h r.1, h, r)

  pub Rows-order_by : (u t : Table A) → Rows u t → Rows u (order_by t)
  Rows-order_by u [] r = tt
  Rows-order_by u ((k, a) ∷ t) r =
      Rows-insert_in_order u k a (order_by t) r.0 (Rows-order_by u t r.1)
