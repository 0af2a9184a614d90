-- ===== src/Payments/Transactions/Summary.antt =====
-- The ledger summary of a user, and what a new transaction adds to it
-- (src/apps/payments/services/transaction_service.py).
use nance_peer_lend_borrow_p.Prelude.{ℕ, ◌+◌, ◌≡◌, [], ◌∷◌, ◌==◌, arith, if◌then◌else◌}
use nance_peer_lend_borrow_p.Prelude.Int.{ℤ, pos, ◌+ℤ◌, ◌-ℤ◌, int_laws}
use nance_peer_lend_borrow_p.Platform.Table.{Table, insert}
use nance_peer_lend_borrow_p.Platform.Errors.{ok}
use nance_peer_lend_borrow_p.Platform.Rows.Payments.{BankTransaction, debit, credit}
use nance_peer_lend_borrow_p.Platform.World.{World, Db}
use nance_peer_lend_borrow_p.Platform.Post.{Post, Post-atomic, Post-ok}
use nance_peer_lend_borrow_p.Payments.Records.{create_transaction_row}
use nance_peer_lend_borrow_p.Payments.Transactions.{
  CreateTransaction, create_transaction, creation_body, sum_of, count_of, get_user_ledger_summary,
  is_direction,
}

-- What a row adds to a user's balance.
abbrev pub signed : ℕ → BankTransaction → ℤ
signed user_id t =
    if t.user_id == user_id
    then (if is_direction t.direction credit then t.amount else pos 0 -ℤ t.amount)
    else pos 0

abbrev pub balance : ℕ → Table BankTransaction → ℤ
balance user_id [] = pos 0
balance user_id ((_, t) ∷ ts) = signed user_id t +ℤ balance user_id ts

sums-balance :
    (user_id : ℕ) (ts : Table BankTransaction)
    → sum_of credit user_id ts -ℤ sum_of debit user_id ts ≡ balance user_id ts
unfolding sum_of
sums-balance user_id [] = omega int_laws
sums-balance user_id ((id, t) ∷ ts) = grind (int_laws, sums-balance user_id ts)

-- The net amount of the summary is the sum of the user's amounts, credits counted up and debits down.
pub summary-balance :
    (user_id : ℕ) (db : Db)
    → (get_user_ledger_summary user_id db).net ≡ balance user_id db.transactions
unfolding get_user_ledger_summary
summary-balance user_id db = sums-balance user_id db.transactions

balance-insert :
    (user_id id : ℕ) (t : BankTransaction) (ts : Table BankTransaction)
    → balance user_id (insert id t ts) ≡ balance user_id ts +ℤ signed user_id t
balance-insert user_id id t [] = omega int_laws
balance-insert user_id id t ((j, u) ∷ ts) = grind (int_laws, balance-insert user_id id t ts)

count_of-insert :
    (user_id id : ℕ) (t : BankTransaction) (ts : Table BankTransaction)
    → count_of user_id (insert id t ts)
      ≡ count_of user_id ts + (if t.user_id == user_id then 1 else 0)
unfolding count_of
count_of-insert user_id id t [] = ground arith
count_of-insert user_id id t ((j, u) ∷ ts) = ground (arith, count_of-insert user_id id t ts)

-- The new row goes to the end of the table.
Stores : World → ℕ × BankTransaction → World → Type 0
Stores w (id, t) v = v.db.transactions ≡ insert id t w.db.transactions

creation-Stores : (p : CreateTransaction) (w : World) → Post (Stores w) (creation_body p w)
unfolding creation_body create_transaction_row Stores
creation-Stores p w = ground arith

-- A transaction that is created adds its amount, as a credit or a debit, to the net amount of its user's
-- summary and one to the count, and nothing to any other user's.
pub create_transaction-summary :
    (p : CreateTransaction) (w w' : World) (id user_id : ℕ) (t : BankTransaction)
    → create_transaction p w ≡ (ok (id, t), w')
    → ((get_user_ledger_summary user_id w'.db).net
        ≡ (get_user_ledger_summary user_id w.db).net +ℤ signed user_id t)
      × ((get_user_ledger_summary user_id w'.db).total_count
          ≡ (get_user_ledger_summary user_id w.db).total_count
            + (if t.user_id == user_id then 1 else 0))
unfolding get_user_ledger_summary create_transaction Stores
create_transaction-summary p w w' id user_id t e =
    let s : w'.db.transactions ≡ insert id t w.db.transactions =
      Post-ok (Stores w) (create_transaction p w) (id, t) w'
        (Post-atomic (Stores w) (creation_body p) w (creation-Stores p (record w { hooks = [] })))
        e in
    (
      rw (sums-balance user_id w'.db.transactions, sums-balance user_id w.db.transactions, s)
          (balance-insert user_id id t w.db.transactions),
      rw s (count_of-insert user_id id t w.db.transactions),
    )
