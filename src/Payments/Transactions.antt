-- ===== src/Payments/Transactions.antt =====
-- src/apps/payments/services/transaction_service.py: bank transactions and their summary.
pub mod Bulk
pub mod Summary
use nance_peer_lend_borrow_p.Prelude.{
  ℕ, suc, ◌+◌, String, Bool, true, false, not, ◌&&◌, Option, none, some, List, [], ◌∷◌, ◌==◌,
  str_eq, if◌then◌else◌,
}
use nance_peer_lend_borrow_p.Prelude.Int.{ℤ, pos, ◌+ℤ◌, ◌-ℤ◌}
use nance_peer_lend_borrow_p.Platform.Table.{Table}
use nance_peer_lend_borrow_p.Platform.Errors.{
  Result, Reason, ok, err, invalid_operation, validation_error, invalid_direction,
  invalid_account_type, invalid_source,
}
use nance_peer_lend_borrow_p.Platform.Rows.Payments.{
  BankTransaction, TransactionDirection, debit, credit, AccountType, savings, current, wallet,
  other, TransactionSource, manual, gmail,
}
use nance_peer_lend_borrow_p.Platform.World.{
  Db, M, pure, raise, gets, ◌>>=◌, ◌>>◌, raise_if, atomic,
}
use nance_peer_lend_borrow_p.Payments.Records.{
  transaction_full_clean, insert_transaction, create_transaction_row,
}

-- `BankTransactionCreateInput`
pub record CreateTransaction : Type 0 where
  pub user_id : ℕ
  pub amount : ℤ
  pub transaction_date : ℕ
  pub narration : String
  pub direction : String
  pub account_number : String
  pub bank : String
  pub account_type : String
  pub source : String
  pub raw_email_reference_id : String

-- The choices: the value whose text this is.
unfoldable pub direction_of : String → Option TransactionDirection
direction_of s =
    if str_eq s "debit" then some debit else if str_eq s "credit" then some credit else none

unfoldable pub account_type_of : String → Option AccountType
account_type_of s =
    if str_eq s "savings"
    then some savings
    else if str_eq s "current"
    then some current
    else if str_eq s "wallet"
    then some wallet
    else if str_eq s "other"
    then some other
    else none

unfoldable pub source_of : String → Option TransactionSource
source_of s =
    if str_eq s "manual" then some manual else if str_eq s "gmail" then some gmail else none

-- `_validate_direction` and its like: the value, when the text is a choice
abbrev pub choose : {A : Type 0} → Reason → Option A → Result A
choose r none = err (invalid_operation r)
choose r (some a) = ok a

abbrev pub then_ok : {A B : Type 0} → Result A → (A → Result B) → Result B
then_ok (ok a) f = f a
then_ok (err e) f = err e

abbrev lift : {A : Type 0} → Result A → M A
lift r w = (r, w)

abbrev pub new_transaction :
    CreateTransaction → TransactionDirection → AccountType → TransactionSource → ℕ → BankTransaction
new_transaction p direction account_type source now = record {
  user_id = p.user_id;
  amount = p.amount;
  transaction_date = p.transaction_date;
  narration = p.narration;
  direction = direction;
  account_number = p.account_number;
  bank = p.bank;
  account_type = account_type;
  source = source;
  raw_email_reference_id = p.raw_email_reference_id;
  created_at = now;
  updated_at = now;
}

-- The three validations, and the row that the payload describes.
unfoldable pub build : ℕ → CreateTransaction → Result BankTransaction
unfolding direction_of account_type_of source_of
build now p = then_ok (choose invalid_direction (direction_of p.direction)) λ direction.
    then_ok (choose invalid_account_type (account_type_of p.account_type)) λ account_type.
      then_ok (choose invalid_source (source_of p.source))
        λ source. ok (new_transaction p direction account_type source now)

-- The body of `create_transaction`, which runs in one transaction.
unfoldable pub creation_body : CreateTransaction → M (ℕ × BankTransaction)
unfolding build
creation_body p = do now ← gets (λ w. w.clock); t ← lift (build now p); create_transaction_row t

unfoldable pub create_transaction : CreateTransaction → M (ℕ × BankTransaction)
create_transaction p = atomic (creation_body p)

-- The first loop of `create_transactions_bulk`, with the rows that it makes.
unfoldable pub build_all : ℕ → List CreateTransaction → Result (List BankTransaction)
unfolding build
build_all now [] = ok []
build_all now (p ∷ ps) = then_ok (build now p) λ t. then_ok (build_all now ps) λ ts. ok (t ∷ ts)

-- `for tx in transactions: tx.full_clean()`
unfoldable pub all_clean : Db → List BankTransaction → Bool
all_clean db [] = true
all_clean db (t ∷ ts) = transaction_full_clean db t && all_clean db ts

-- `bulk_create`
unfoldable pub insert_all : List BankTransaction → M (List (ℕ × BankTransaction))
insert_all [] = pure []
insert_all (t ∷ ts) = do r ← insert_transaction t; rs ← insert_all ts; pure (r ∷ rs)

-- The body of `create_transactions_bulk`, which runs in one transaction.
unfoldable pub bulk_body : List CreateTransaction → M (List (ℕ × BankTransaction))
bulk_body ps = do
  w ← gets (λ w. w)
  ts ← lift (build_all w.clock ps)
  raise_if (not (all_clean w.db ts)) validation_error
  insert_all ts

pub create_transactions_bulk : List CreateTransaction → M (List (ℕ × BankTransaction))
create_transactions_bulk ps = atomic (bulk_body ps)

pub record LedgerSummary : Type 0 where
  pub total_credit : ℤ
  pub total_debit : ℤ
  pub net : ℤ
  pub total_count : ℕ

abbrev pub is_direction : TransactionDirection → TransactionDirection → Bool
is_direction debit debit = true
is_direction credit credit = true
is_direction _ _ = false

-- `Sum("amount", filter=Q(direction=…))` over the user's rows; no row counts as 0.
unfoldable pub sum_of : TransactionDirection → ℕ → Table BankTransaction → ℤ
sum_of direction user_id [] = pos 0
sum_of direction user_id ((_, t) ∷ ts) =
    let rest = sum_of direction user_id ts in
    if t.user_id == user_id && is_direction t.direction direction then t.amount +ℤ rest else rest

-- `Count("id")`
unfoldable pub count_of : ℕ → Table BankTransaction → ℕ
count_of user_id [] = 0
count_of user_id ((_, t) ∷ ts) =
    let rest = count_of user_id ts in if t.user_id == user_id then suc rest else rest

pub get_user_ledger_summary : ℕ → Db → LedgerSummary
unfolding sum_of count_of
get_user_ledger_summary user_id db =
    let total_credit = sum_of credit user_id db.transactions in
    let total_debit = sum_of debit user_id db.transactions in
    record {
      total_credit = total_credit;
      total_debit = total_debit;
      net = total_credit -ℤ total_debit;
      total_count = count_of user_id db.transactions;
    }
