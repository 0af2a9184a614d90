-- ===== src/Payments/Reconciliation.antt =====
-- src/apps/payments/services/reconciliation_service.py. The query orders the candidates by date; rows
-- of one date stand in the order of their keys here. Times are read in UTC.
pub mod Best
use nance_peer_lend_borrow_p.Prelude.{
  ℕ, ◌+◌, ◌-◌, ◌*◌, ◌/◌, String, Bool, true, false, not, ◌&&◌, Option, none, some, [], ◌∷◌, ltb,
  leb, ◌==◌, str_eq, any, select, if◌then◌else◌,
}
use nance_peer_lend_borrow_p.Prelude.Int.{ℤ, ◌==ℤ◌}
use nance_peer_lend_borrow_p.Prelude.Text.{is_empty, strip, contains}
use nance_peer_lend_borrow_p.Platform.Table.{Table}
use nance_peer_lend_borrow_p.Platform.Rows.Loans.{MatchConfidence, high, medium, low}
use nance_peer_lend_borrow_p.Platform.Rows.Payments.{
  BankTransaction, DiscoveredAccount, DiscoveredAccountStatus, TransactionDirection, AccountType,
  savings, current, wallet, other, debit, credit, linked, dismissed, unlinked,
}
use nance_peer_lend_borrow_p.Platform.World.{Db, Env, day}
use nance_peer_lend_borrow_p.Payments.Records.{account_type_eq}

pub record ReconciliationResult : Type 0 where
  pub matched_transaction : Option ℕ
  pub match_confidence : Option MatchConfidence
  pub requires_manual_review : Bool

abbrev is_debit : TransactionDirection → Bool
is_debit debit = true
is_debit credit = false

-- `account_type__in=[SAVINGS, CURRENT]`
abbrev is_bank_account : AccountType → Bool
is_bank_account savings = true
is_bank_account current = true
is_bank_account wallet = false
is_bank_account other = false

abbrev is_linked : DiscoveredAccountStatus → Bool
is_linked linked = true
is_linked dismissed = false
is_linked unlinked = false

-- The subquery `linked_accounts`, for one transaction.
abbrev links : ℕ → BankTransaction → ℕ × DiscoveredAccount → Bool
links user_id t (_, a) =
    a.user_id == user_id
    && is_linked a.status
    && str_eq a.account_number t.account_number
    && str_eq a.bank t.bank
    && account_type_eq a.account_type t.account_type

-- The filters of `candidates`.
pub is_candidate : Db → ℕ → ℤ → ℕ → ℕ × BankTransaction → Bool
is_candidate db user_id amount paid_at (_, t) =
    t.user_id == user_id
    && t.amount ==ℤ amount
    && is_debit t.direction
    && is_bank_account t.account_type
    && leb paid_at (t.transaction_date + 5 * day)
    && leb t.transaction_date (paid_at + 5 * day)
    && any (links user_id t) db.accounts

-- `order_by("transaction_date")`
pub insert_by_date : ℕ × BankTransaction → Table BankTransaction → Table BankTransaction
insert_by_date e [] = e ∷ []
insert_by_date e (x ∷ xs) =
    if leb e.1.transaction_date x.1.transaction_date then e ∷ x ∷ xs else x ∷ insert_by_date e xs

pub order_by_date : Table BankTransaction → Table BankTransaction
unfolding insert_by_date
order_by_date [] = []
order_by_date (e ∷ es) = insert_by_date e (order_by_date es)

pub candidates : Db → ℕ → ℤ → ℕ → Table BankTransaction
unfolding order_by_date is_candidate
candidates db user_id amount paid_at =
    order_by_date (select (is_candidate db user_id amount paid_at) db.transactions)

-- The distance of two dates in days.
abbrev day_delta : ℕ → ℕ → ℕ
day_delta a b = (a / day - b / day) + (b / day - a / day)

abbrev closeness : ℕ → ℕ
closeness delta = if delta == 0 then 3 else if leb delta 2 then 2 else 1

-- The score of one candidate; the reference is stripped and in lower case.
unfoldable pub score : Env → String → ℕ → BankTransaction → ℕ
score env reference paid_at t =
    (if not (is_empty reference) && contains reference (env.lower t.narration) then 7 else 0)
    + closeness (day_delta t.transaction_date paid_at)

unfoldable pub confidence : ℕ → MatchConfidence
confidence s = if leb 8 s then high else if leb 4 s then medium else low

-- `best_match`, `best_confidence`, `best_score` after a candidate; no match stands for the score -1.
abbrev pub Best : Type 0
Best = Option (ℕ × MatchConfidence × ℕ)

abbrev beats : ℕ → Best → Bool
beats s none = true
beats s (some (_, _, best)) = ltb best s

unfoldable pub scan : Env → String → ℕ → Table BankTransaction → Best → Best
unfolding score confidence
scan env reference paid_at [] best = best
scan env reference paid_at ((id, t) ∷ ts) best =
    let s = score env reference paid_at t in
    scan env reference paid_at ts (if beats s best then some (id, confidence s, s) else best)

abbrev conclude : String → Best → ReconciliationResult
conclude reference none = record {
  matched_transaction = none;
  match_confidence = none;
  requires_manual_review = not (is_empty reference);
}
conclude reference (some (id, c, _)) = record {
  matched_transaction = some id;
  match_confidence = some c;
  requires_manual_review = false;
}

pub match_repayment_transaction : Env → Db → ℕ → ℤ → ℕ → String → ReconciliationResult
unfolding candidates scan
match_repayment_transaction env db user_id amount paid_at transaction_reference =
    let reference = env.lower (strip transaction_reference) in
    conclude reference (scan env reference paid_at (candidates db user_id amount paid_at) none)

-- Opens the definitions of this file, to evaluate them.
unfoldable pub reconciliation : Unit {0}
unfolding match_repayment_transaction candidates order_by_date insert_by_date is_candidate scan
    strip contains
reconciliation = tt
