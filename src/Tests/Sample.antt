-- ===== src/Tests/Sample.antt =====
-- A platform with three users and no loan, and a functions of the libraries' for the tests.
use nance_peer_lend_borrow_p.Prelude.{true, none, some, [], ◌∷◌, ◌&&◌, leb, String}
use nance_peer_lend_borrow_p.Prelude.Int.{pos}
use nance_peer_lend_borrow_p.Platform.Rows.Loans.{User}
use nance_peer_lend_borrow_p.Platform.World.{World, Env}
use nance_peer_lend_borrow_p.Loans.LoanService.{CreateLoan}
use nance_peer_lend_borrow_p.Loans.History.{core}
use nance_peer_lend_borrow_p.Loans.History.Invariant.{Inv}

abbrev pub env : Env
env = record {
  digest = λ p. "digest";
  upper = λ s. s;
  lower = λ s. s;
  is_digit = λ c. leb 48 c && leb c 57;
  isoformat = λ d. "2026-01-01";
}

abbrev user : String → User
user number = record { mobile_number = number; name = "User"; is_active = true }

abbrev pub empty : World
empty = record {
  db = record {
    users = (1, user "+15550000001") ∷ (2, user "+15550000002") ∷ (3, user "+15550000003") ∷ [];
    loans = [];
    repayments = [];
    transactions = [];
    accounts = [];
    gmail_accounts = [];
    families = [];
    members = [];
    invitations = [];
    ledger = [];
    notifications = [];
    audit = [];
  };
  seq = record {
    user = 4;
    loan = 1;
    repayment = 1;
    transaction = 1;
    account = 1;
    gmail_account = 1;
    family = 1;
    member = 1;
    invitation = 1;
    notification = 1;
  };
  cache = [];
  tasks = [];
  hooks = [];
  published = [];
  clock = 1000;
  broker_up = true;
}

pub empty-Inv : Inv (core empty)
empty-Inv = record {
  loans_below = tt;
  repayments_below = tt;
  repayments_keyed = tt;
  loans_sound = λ id l e. cc;
  repayments_sound = λ id r e. cc;
  loans_told = λ id l e. cc;
  repayments_told = λ id r e. cc;
}

-- User 1 asks to lend 100.00 to user 2.
abbrev pub request : CreateLoan
request = record {
  lender_id = 1;
  borrower_id = some 2;
  borrower_mobile_number = none;
  principal_amount = pos 10000;
  currency = "USD";
  interest_rate = pos 500;
  repayment_term_months = pos 12;
  starts_at = 10;
  ends_at = 20;
  purpose = "";
  source_transaction_reference = "";
  idempotency_key = "k1";
  principal_text = "100.00";
  rate_text = "5.00";
}
