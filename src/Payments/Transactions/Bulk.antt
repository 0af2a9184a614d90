-- ===== src/Payments/Transactions/Bulk.antt =====
-- `create_transactions_bulk` against the creation of one transaction after another
-- (src/apps/payments/services/transaction_service.py).
use nance_peer_lend_borrow_p.Prelude.{ℕ, ◌≡◌, ◌↔◌, inl, inr, refl, ap, ◌&&◌, List, [], ◌∷◌, arith}
use nance_peer_lend_borrow_p.Platform.Table.{Table, insert}
use nance_peer_lend_borrow_p.Platform.Errors.{Result, Result-cases, ok, err}
use nance_peer_lend_borrow_p.Platform.Rows.Payments.{BankTransaction}
use nance_peer_lend_borrow_p.Platform.World.{World, Db, M, pure, ◌>>=◌, atomic, close_transaction}
use nance_peer_lend_borrow_p.Payments.Records.{
  transaction_full_clean, insert_transaction, create_transaction_row,
}
use nance_peer_lend_borrow_p.Payments.Transactions.{
  CreateTransaction, build, build_all, all_clean, insert_all, creation_body, bulk_body,
  create_transactions_bulk,
}

-- The reference: the body of `create_transaction`, once for each payload.
unfoldable pub create_each : List CreateTransaction → M (List (ℕ × BankTransaction))
create_each [] = pure []
create_each (p ∷ ps) = do r ← creation_body p; rs ← create_each ps; pure (r ∷ rs)

-- `full_clean` does not read the other transactions.
all_clean-table :
    (db : Db) (table : Table BankTransaction) (ts : List BankTransaction)
    → all_clean (record db { transactions = table }) ts ≡ all_clean db ts
unfolding all_clean transaction_full_clean
all_clean-table db table [] = refl
all_clean-table db table (t ∷ ts) =
    ap (λ b. transaction_full_clean db t && b) (all_clean-table db table ts)

module _ {A : Type 0} where
  -- Both go through in the same way, or both fail.
  abbrev Agree : Result A × World → Result A × World → Type 0
  Agree (ok a, v) (ok b, u) = (a ≡ b) × (v ≡ u)
  Agree (ok a, v) (err _, u) = ⊥
  Agree (err _, v) (ok b, u) = ⊥
  Agree (err _, v) (err _, u) = Unit

-- One payload in front: what comes after it starts from the state with its row.
bulk_step-Agree :
    (p : CreateTransaction) (ps : List CreateTransaction) (w : World) (t : BankTransaction)
    → build w.clock p ≡ ok t
    → Agree (bulk_body ps (insert_transaction t w).1) (create_each ps (insert_transaction t w).1)
    → Agree (bulk_body (p ∷ ps) w) (create_each (p ∷ ps) w)
unfolding bulk_body create_each build_all all_clean insert_all creation_body create_transaction_row
bulk_step-Agree p ps w t e ih = elim (Result-cases (build_all w.clock ps)) [
  | inl (ts, f) ↦
      ground
        (arith, e, f, ih, all_clean-table w.db (insert w.seq.transaction t w.db.transactions) ts)
  | inr (x, f) ↦ ground (arith, e, f, ih)
]

bulk-Agree : (ps : List CreateTransaction) (w : World) → Agree (bulk_body ps w) (create_each ps w)
unfolding bulk_body create_each build_all all_clean insert_all creation_body create_transaction_row
bulk-Agree [] w = (refl, refl)
bulk-Agree (p ∷ ps) w = elim (Result-cases (build w.clock p)) [
  | inl (t, e) ↦ bulk_step-Agree p ps w t e (bulk-Agree ps (insert_transaction t w).1)
  | inr (x, e) ↦ ground (arith, e)
]

close-Agree :
    {A : Type 0} (w : World) (r s : Result A × World)
    → Agree r s
    → (a : A) (v : World)
    → (close_transaction w r ≡ (ok a, v)) ↔ (close_transaction w s ≡ (ok a, v))
close-Agree w (ok a, v) (ok b, u) h c x = rw (h.0, h.1) ((λ e. e), λ e. e)
close-Agree w (ok a, v) (err f, u) h c x = absurd h
close-Agree w (err e, v) (ok b, u) h c x = absurd h
close-Agree w (err e, v) (err f, u) h c x = ((λ k. ground (arith, k)), λ k. ground (arith, k))

-- The bulk creation goes through exactly when the creations of its payloads one after another, in one
-- transaction, go through, with the same rows under the same keys and the same state after it.
pub create_transactions_bulk-create_each :
    (ps : List CreateTransaction) (w w' : World) (rows : List (ℕ × BankTransaction))
    → (create_transactions_bulk ps w ≡ (ok rows, w')) ↔ (atomic (create_each ps) w ≡ (ok rows, w'))
unfolding create_transactions_bulk
create_transactions_bulk-create_each ps w w' rows =
    close-Agree w (bulk_body ps (record w { hooks = [] }))
      (create_each ps (record w { hooks = [] })) (bulk-Agree ps (record w { hooks = [] })) rows w'
