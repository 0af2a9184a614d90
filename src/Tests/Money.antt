-- ===== src/Tests/Money.antt =====
-- A payment with its bank transaction, and the positions in a family.
use nance_peer_lend_borrow_p.Prelude.{ℕ, refl, ◌∷◌, [], none, some, false, String}
use nance_peer_lend_borrow_p.Prelude.Int.{ℤ, pos, negsuc, ◌+ℤ◌, ◌-ℤ◌}
use nance_peer_lend_borrow_p.Platform.Rows.Loans.{Repayment, paid, partial}
use nance_peer_lend_borrow_p.Platform.Rows.Payments.{
  BankTransaction, DiscoveredAccount, savings, debit, linked, TransactionSource,
}
use nance_peer_lend_borrow_p.Platform.World.{World, Db}
use nance_peer_lend_borrow_p.Loans.Calls.{Call, run, loan_calls}
use nance_peer_lend_borrow_p.Loans.RepaymentService.{apply_payment}
use nance_peer_lend_borrow_p.Loans.RepaymentService.Payment.{IsPayment, apply_payment-IsPayment}
use nance_peer_lend_borrow_p.Payments.Reconciliation.{match_repayment_transaction, reconciliation}
use nance_peer_lend_borrow_p.Payments.Reconciliation.Best.{
  IsAnswer, match_repayment_transaction-IsAnswer,
}
use nance_peer_lend_borrow_p.Platform.Rows.Family.{owner, member}
use nance_peer_lend_borrow_p.Family.Positions.{Position, FamilyLedger, positions}
use nance_peer_lend_borrow_p.Family.Positions.Conservation.{Balances, get_family_ledger-Balances}
use nance_peer_lend_borrow_p.Tests.Loans.{active_loan}
use nance_peer_lend_borrow_p.Tests.Sample.{env, empty, request}

-- A loan of 100.00, accepted, with one installment of 100.00 of which 40.00 are paid.
abbrev part_paid : World
part_paid =
    run env
      (Call.creates request
        ∷ Call.accepts 1 2 "k2"
        ∷ Call.installs 1 (pos 1) 15 (pos 10000)
        ∷ Call.pays 1 (pos 4000) none "" ""
        ∷ [])
      empty

abbrev before : Repayment
before = record {
  loan_id = 1;
  installment_number = pos 1;
  due_date = 15;
  amount_due = pos 10000;
  amount_paid = pos 4000;
  note = "";
  transaction_reference = "";
  matched_transaction = none;
  match_confidence = none;
  requires_manual_review = false;
  status = partial;
  paid_at = none;
  created_at = 1000;
  updated_at = 1000;
}

abbrev after : Repayment
after = record before { amount_paid = pos 10000; status = paid; paid_at = some 1000 }

apply_payment-IsPayment_example :
    IsPayment 1 before
      (pos 6000)
      after
      part_paid.db
      (apply_payment env 1 (pos 6000) none "" "" part_paid).1.db
unfolding loan_calls
apply_payment-IsPayment_example =
    apply_payment-IsPayment env 1 before after (pos 6000) none "" "" part_paid
      (apply_payment env 1 (pos 6000) none "" "" part_paid).1 refl refl

abbrev account : DiscoveredAccount
account = record {
  user_id = 2;
  account_number = "12";
  bank = "Bank";
  account_type = savings;
  status = linked;
  first_seen_at = 900;
  supporting_email_count = 1;
  created_at = 900;
  updated_at = 900;
}

abbrev transfer : BankTransaction
transfer = record {
  user_id = 2;
  amount = pos 6000;
  transaction_date = 1000;
  narration = "upi ref 77";
  direction = debit;
  account_number = "12";
  bank = "Bank";
  account_type = savings;
  source = TransactionSource.manual;
  raw_email_reference_id = "";
  created_at = 1000;
  updated_at = 1000;
}

abbrev with_transfer : Db
with_transfer = record empty.db { transactions = (5, transfer) ∷ []; accounts = (1, account) ∷ [] }

match_repayment_transaction-IsAnswer_example :
    IsAnswer env with_transfer 2
      (pos 6000)
      1000
      "REF"
      (match_repayment_transaction env with_transfer 2 (pos 6000) 1000 "REF")
      (some 5)
unfolding reconciliation
match_repayment_transaction-IsAnswer_example =
    match_repayment_transaction-IsAnswer env with_transfer 2 (pos 6000) 1000 "REF"

-- User 1 heads a family with user 2, who owes 100.00.
abbrev family_world : World
family_world = record empty {
  db = record empty.db {
    loans = (1, active_loan) ∷ [];
    families = (1, record { name = "Family"; owner_id = 1; created_at = 900 }) ∷ [];
    members =
        (1, record { family_id = 1; user_id = 1; role = owner; joined_at = 900 })
        ∷ (2, record { family_id = 1; user_id = 2; role = member; joined_at = 950 })
        ∷ [];
  };
}

abbrev position : ℕ → String → ℤ → ℤ → ℤ → Position
position id number lent borrowed net = record {
  user_id = id;
  mobile_number = number;
  name = "User";
  total_lent = lent;
  total_borrowed = borrowed;
  net_position = net;
}

abbrev shown : FamilyLedger
shown = record {
  entries = [];
  total_amount = pos 0;
  member_positions =
      position 1 "+15550000001" (pos 10000) (pos 0) (pos 10000)
      ∷ position 2 "+15550000002" (pos 0) (pos 10000) (negsuc 9999)
      ∷ [];
  obligations = record { from_user_id = 2; to_user_id = 1; amount = pos 10000; loan_id = 1 } ∷ [];
}

get_family_ledger-Balances_example : Balances shown.member_positions shown.obligations
unfolding positions ◌-ℤ◌ ◌+ℤ◌
get_family_ledger-Balances_example =
    get_family_ledger-Balances 2 family_world family_world shown refl
