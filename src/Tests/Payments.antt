-- ===== src/Tests/Payments.antt =====
-- Transactions and accounts of the first user.
use nance_peer_lend_borrow_p.Prelude.{◌+◌, ◌≡◌, ◌↔◌, refl, true, List, [], ◌∷◌, ◌==◌, if◌then◌else◌}
use nance_peer_lend_borrow_p.Prelude.Int.{pos, ◌+ℤ◌}
use nance_peer_lend_borrow_p.Prelude.Text.{strip, text_len}
use nance_peer_lend_borrow_p.Platform.Errors.{ok}
use nance_peer_lend_borrow_p.Platform.Rows.Payments.{
  BankTransaction, debit, credit, savings, manual,
}
use nance_peer_lend_borrow_p.Platform.World.{World, atomic}
use nance_peer_lend_borrow_p.Payments.Transactions.{
  CreateTransaction, create_transaction, creation_body, create_transactions_bulk,
  get_user_ledger_summary, new_transaction, build,
}
use nance_peer_lend_borrow_p.Payments.Transactions.Bulk.{
  create_each, create_transactions_bulk-create_each,
}
use nance_peer_lend_borrow_p.Payments.Transactions.Summary.{
  balance, signed, summary-balance, create_transaction-summary,
}
use nance_peer_lend_borrow_p.Payments.Records.{create_transaction_row, transaction_full_clean}
use nance_peer_lend_borrow_p.Payments.Accounts.Calls.{
  AccountCall, discovers_account, links_account, dismisses_account, passes, take_calls,
}
use nance_peer_lend_borrow_p.Payments.Accounts.Calls.Guarantees.{InBook, take_calls-InBook}
use nance_peer_lend_borrow_p.Tests.Sample.{env, empty}

abbrev salary : CreateTransaction
salary = record {
  user_id = 1;
  amount = pos 500000;
  transaction_date = 900;
  narration = "Salary";
  direction = "credit";
  account_number = "1234567890";
  bank = "HDFC";
  account_type = "savings";
  source = "manual";
  raw_email_reference_id = "";
}

abbrev rent : CreateTransaction
rent = record salary { amount = pos 200000; narration = "Rent"; direction = "debit" }

abbrev salary_row : BankTransaction
salary_row = new_transaction salary credit savings manual 1000

abbrev rent_row : BankTransaction
rent_row = new_transaction rent debit savings manual 1000

abbrev after_salary : World
after_salary = record empty {
  db = record empty.db { transactions = (1, salary_row) ∷ [] };
  seq = record empty.seq { transaction = 2 };
}

abbrev after_rent : World
after_rent = record empty {
  db = record empty.db { transactions = (1, salary_row) ∷ (2, rent_row) ∷ [] };
  seq = record empty.seq { transaction = 3 };
}

create_transactions_bulk-create_each_example :
    (create_transactions_bulk (salary ∷ rent ∷ []) empty
      ≡ (ok ((1, salary_row) ∷ (2, rent_row) ∷ []), after_rent))
    ↔ (atomic (create_each (salary ∷ rent ∷ [])) empty
        ≡ (ok ((1, salary_row) ∷ (2, rent_row) ∷ []), after_rent))
create_transactions_bulk-create_each_example =
    create_transactions_bulk-create_each (salary ∷ rent ∷ []) empty after_rent
      ((1, salary_row) ∷ (2, rent_row) ∷ [])

each_run :
    atomic (create_each (salary ∷ rent ∷ [])) empty
    ≡ (ok ((1, salary_row) ∷ (2, rent_row) ∷ []), after_rent)
unfolding create_each creation_body create_transaction_row build transaction_full_clean strip
    text_len
each_run = refl

summary-balance_example :
    (get_user_ledger_summary 1 after_rent.db).net ≡ balance 1 after_rent.db.transactions
summary-balance_example = summary-balance 1 after_rent.db

salary_run : create_transaction salary empty ≡ (ok (1, salary_row), after_salary)
unfolding create_transaction creation_body create_transaction_row build transaction_full_clean strip
    text_len
salary_run = refl

create_transaction-summary_example :
    ((get_user_ledger_summary 1 after_salary.db).net
      ≡ (get_user_ledger_summary 1 empty.db).net +ℤ signed 1 salary_row)
    × ((get_user_ledger_summary 1 after_salary.db).total_count
        ≡ (get_user_ledger_summary 1 empty.db).total_count
          + (if salary_row.user_id == 1 then 1 else 0))
create_transaction-summary_example =
    create_transaction-summary salary empty after_salary 1 1 salary_row salary_run

empty-IsBook : InBook empty
empty-IsBook = record { keyed = tt; below = tt; distinct = tt; told = λ id a e. cc }

abbrev calls : List AccountCall
calls =
    discovers_account 1 "1234567890" "hdfc" "savings" true
    ∷ links_account 1 1
    ∷ passes 5
    ∷ discovers_account 1 " 1234567890" "hdfc" "savings" true
    ∷ dismisses_account 1 2
    ∷ []

take_calls-InBook_example : InBook (take_calls env calls empty)
take_calls-InBook_example = take_calls-InBook env calls empty empty-IsBook
