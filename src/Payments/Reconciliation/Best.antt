-- ===== src/Payments/Reconciliation/Best.antt =====
-- The bank transaction that a payment is matched with (src/apps/payments/services/reconciliation_service.py).
use mathlib.Core.List.{Memᴰ}
use nance_peer_lend_borrow_p.Prelude.{
  ℕ, ◌≡◌, ◌≤◌, refl, ap, String, Bool, true, false, not, Option, none, some, List, [], ◌∷◌, arith,
  if◌then◌else◌, All, select, leb,
}
use nance_peer_lend_borrow_p.Prelude.Int.{ℤ}
use nance_peer_lend_borrow_p.Prelude.Text.{is_empty, strip}
use nance_peer_lend_borrow_p.Platform.Table.{Table}
use nance_peer_lend_borrow_p.Platform.Rows.Payments.{BankTransaction}
use nance_peer_lend_borrow_p.Platform.World.{Db, Env}
use nance_peer_lend_borrow_p.Payments.Reconciliation.{
  ReconciliationResult, match_repayment_transaction, is_candidate, insert_by_date, order_by_date,
  candidates, score, confidence, scan, Best, beats, conclude,
}

module _ {A : Type 0} where
  All-map : (P Q : A → Type 0) → ((x : A) → P x → Q x) → (xs : List A) → All P xs → All Q xs
  All-map P Q f [] h = tt
  All-map P Q f (x ∷ xs) h = (f x h.0, All-map P Q f xs h.1)

  -- Every element is one of the list.
  All-Mem : (xs : List A) → All (λ x. Memᴰ x xs) xs
  All-Mem [] = tt
  All-Mem (x ∷ xs) =
      (Memᴰ.head refl, All-map (λ y. Memᴰ y xs) _ (λ y m. Memᴰ.tail m) xs (All-Mem xs))

module _ (P : ℕ × BankTransaction → Type 0) where
  All-insert_by_date :
      (e : ℕ × BankTransaction) (xs : Table BankTransaction)
      → P e
      → All P xs
      → All P (insert_by_date e xs)
  unfolding insert_by_date
  All-insert_by_date e [] p h = (p, tt)
  All-insert_by_date e (x ∷ xs) p h = ground (arith, p, h.0, h.1, All-insert_by_date e xs p h.1)

  All-order_by_date : (xs : Table BankTransaction) → All P xs → All P (order_by_date xs)
  unfolding order_by_date
  All-order_by_date [] h = tt
  All-order_by_date (x ∷ xs) h =
      All-insert_by_date x (order_by_date xs) h.0 (All-order_by_date xs h.1)

  All-inserted :
      (e : ℕ × BankTransaction) (xs : Table BankTransaction)
      → All P (insert_by_date e xs)
      → P e × All P xs
  unfolding insert_by_date
  All-inserted e [] h = (h.0, tt)
  All-inserted e (x ∷ xs) h = ground (arith, h, All-inserted e xs)

  All-ordered : (xs : Table BankTransaction) → All P (order_by_date xs) → All P xs
  unfolding order_by_date
  All-ordered [] h = tt
  All-ordered (x ∷ xs) h = let (p, q) = All-inserted x (order_by_date xs) h in (p, All-ordered xs q)

-- What the scan keeps at least, and what it keeps at most.
abbrev at_least : ℕ → Best → Bool
at_least s none = false
at_least s (some (_, _, best)) = leb s best

abbrev grows : Best → Best → Bool
grows none b = true
grows (some (_, _, s)) b = at_least s b

grows_trans : (a b c : Best) → grows a b ≡ true → grows b c ≡ true → grows a c ≡ true
grows_trans a b c h k = ground arith

at_least-grows : (s : ℕ) (b c : Best) → at_least s b ≡ true → grows b c ≡ true → at_least s c ≡ true
at_least-grows s b c h k = ground arith

module _ (env : Env) (reference : String) (at : ℕ) where
  -- What the scan goes on with after a row.
  abbrev next : ℕ → BankTransaction → Best → Best
  next id t best =
      let s = score env reference at t in if beats s best then some (id, confidence s, s) else best

  next_top :
      (id : ℕ) (t : BankTransaction) (best : Best)
      → (grows best (next id t best) ≡ true)
        × (at_least (score env reference at t) (next id t best) ≡ true)
  next_top id t best = ground arith

  -- The score of what the scan keeps is the largest.
  scan_top :
      (ts : Table BankTransaction) (best : Best)
      → (grows best (scan env reference at ts best) ≡ true)
        × All
            (λ (e : ℕ × BankTransaction).
              at_least (score env reference at e.1) (scan env reference at ts best) ≡ true)
            ts
  unfolding scan
  scan_top [] none = (refl, tt)
  scan_top [] (some b) = (ground arith, tt)
  scan_top ((id, t) ∷ ts) best =
      let (g, a) = scan_top ts (next id t best) in
      let (u, v) = next_top id t best in
      let r = scan env reference at ts (next id t best) in
      (
        grows_trans best (next id t best) r u g,
        (at_least-grows (score env reference at t) (next id t best) r v g, a),
      )

  -- It is the start, or a row that was scanned, with the confidence of its score.
  abbrev Comes : (ℕ × BankTransaction → Type 0) → Best → Type 0
  Comes P none = Unit
  Comes P (some (id, c, s)) =
      (t : BankTransaction) × P (id, t)
      × (c ≡ confidence (score env reference at t))
      × (s ≡ score env reference at t)

  Comes-if :
      (P : ℕ × BankTransaction → Type 0) (c : Bool) (a b : Best)
      → Comes P a
      → Comes P b
      → Comes P (if c then a else b)
  Comes-if P true a b h k = h
  Comes-if P false a b h k = k

  next-Comes :
      (P : ℕ × BankTransaction → Type 0) (id : ℕ) (t : BankTransaction) (best : Best)
      → P (id, t)
      → Comes P best
      → Comes P (next id t best)
  next-Comes P id t best p k =
      Comes-if P (beats (score env reference at t) best) _ _ (t, p, refl, refl) k

  scan-Comes :
      (P : ℕ × BankTransaction → Type 0) (ts : Table BankTransaction) (best : Best)
      → All P ts
      → Comes P best
      → Comes P (scan env reference at ts best)
  unfolding scan
  scan-Comes P [] best h k = k
  scan-Comes P ((id, t) ∷ ts) best h k =
      scan-Comes P ts (next id t best) h.1 (next-Comes P id t best h.0 k)

-- What the answer of a search is.
abbrev pub IsAnswer : Env → Db → ℕ → ℤ → ℕ → String → ReconciliationResult → Option ℕ → Type 0
IsAnswer env db user_id amount at reference r none =
    All (λ e. is_candidate db user_id amount at e ≡ false) db.transactions
    × (r.match_confidence ≡ none)
    × (r.requires_manual_review ≡ not (is_empty reference))
IsAnswer env db user_id amount at reference r (some id) =
    (t : BankTransaction) × Memᴰ (id, t) db.transactions
    × (is_candidate db user_id amount at (id, t) ≡ true)
    × All
        (λ (e : ℕ × BankTransaction).
          is_candidate db user_id amount at e ≡ true
          → score env reference at e.1 ≤ score env reference at t)
        db.transactions
    × (r.match_confidence ≡ some (confidence (score env reference at t)))
    × (r.requires_manual_review ≡ false)

module _ (p : ℕ × BankTransaction → Bool) where
  All-select :
      (P : ℕ × BankTransaction → Type 0) (xs : Table BankTransaction)
      → All P xs
      → All (λ e. P e × (p e ≡ true)) (select p xs)
  All-select P [] h = tt
  All-select P (x ∷ xs) h = ground (arith, h.0, h.1, All-select P xs h.1)

  All-selected :
      (P : ℕ × BankTransaction → Type 0) (xs : Table BankTransaction)
      → All P (select p xs)
      → All (λ e. p e ≡ true → P e) xs
  All-selected P [] h = tt
  All-selected P (x ∷ xs) h = ground (arith, h, All-selected P xs)

module _ (env : Env) (db : Db) (user_id : ℕ) (amount : ℤ) (at : ℕ) where
  conclude-IsAnswer :
      (reference : String) (b : Best)
      → All
          (λ (e : ℕ × BankTransaction).
            is_candidate db user_id amount at e ≡ true
            → at_least (score env reference at e.1) b ≡ true)
          db.transactions
      → Comes env reference at
          (λ e. Memᴰ e db.transactions × (is_candidate db user_id amount at e ≡ true))
          b
      → IsAnswer env db user_id amount at reference
          (conclude reference b)
          (conclude reference b).matched_transaction
  conclude-IsAnswer reference none a c =
      (All-map _ _ (λ e f. ground (arith, f)) db.transactions a, refl, refl)
  conclude-IsAnswer reference (some (id, k, s)) a (t, (m, q), e, f) =
      (t, m, q, All-map _ _ (λ x g u. ground (arith, g u, f)) db.transactions a, ap some e, refl)

  -- The match of a payment. With a transaction in the answer, it is a stored one that passes every filter,
  -- no other such transaction has a higher score, and the confidence is that of its score. With none, no
  -- stored transaction passes the filters, and a review is asked for exactly when there is a reference.
  pub match_repayment_transaction-IsAnswer :
      (reference : String)
      → let r = match_repayment_transaction env db user_id amount at reference in
        IsAnswer env db user_id amount at (env.lower (strip reference)) r r.matched_transaction
  unfolding match_repayment_transaction candidates
  match_repayment_transaction-IsAnswer reference =
      let ref = env.lower (strip reference) in
      let p = is_candidate db user_id amount at in
      let chosen = select p db.transactions in
      let ts = order_by_date chosen in
      conclude-IsAnswer ref (scan env ref at ts none)
        (All-selected p (λ e. at_least (score env ref at e.1) (scan env ref at ts none) ≡ true)
          db.transactions (All-ordered _ chosen (scan_top env ref at ts none).1))
        (scan-Comes env ref at _ ts none
          (All-order_by_date _ chosen (All-select p _ db.transactions (All-Mem db.transactions)))
          tt)
