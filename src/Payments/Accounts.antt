-- ===== src/Payments/Accounts.antt =====
-- src/apps/payments/services/discovered_account_service.py: the bank accounts that were found for a user.
pub mod Book
pub mod Calls
use nance_peer_lend_borrow_p.Prelude.{
  ℕ, suc, ◌+◌, String, Bool, true, false, not, ◌&&◌, Option, none, some, List, [], ◌∷◌, ◌==◌, first,
  if◌then◌else◌,
}
use nance_peer_lend_borrow_p.Prelude.Text.{strip}
use nance_peer_lend_borrow_p.Platform.Table.{get, update}
use nance_peer_lend_borrow_p.Platform.Errors.{
  ok, not_found, invalid_operation, invalid_account_type,
}
use nance_peer_lend_borrow_p.Platform.Rows.Payments.{
  DiscoveredAccount, DiscoveredAccountStatus, linked, dismissed, unlinked, AccountType,
}
use nance_peer_lend_borrow_p.Platform.Rows.Notices.{Value, EntityType, row_id, AuditEvent}
use nance_peer_lend_borrow_p.Platform.World.{
  M, pure, raise, gets, when, ◌>>=◌, ◌>>◌, write, atomic, record_state_change, Env,
}
use nance_peer_lend_borrow_p.Payments.Records.{
  is_account, create_account_row, save_account_status, normalized, account_status_eq,
}
use nance_peer_lend_borrow_p.Payments.Transactions.{account_type_of, choose}

abbrev pub account_event : ℕ → Value → DiscoveredAccountStatus → ℕ → String → AuditEvent
account_event id from to actor action = record {
  entity_type = EntityType.discovered_account;
  entity_id = row_id id;
  field_name = "status";
  from_state = from;
  to_state = Value.account_status to;
  actor_id = some actor;
  metadata = ("action", Value.text action) ∷ [];
}

abbrev pub new_account : ℕ → String → String → AccountType → ℕ → DiscoveredAccount
new_account user_id account_number bank account_type now = record {
  user_id = user_id;
  account_number = account_number;
  bank = bank;
  account_type = account_type;
  status = unlinked;
  first_seen_at = now;
  supporting_email_count = 1;
  created_at = now;
  updated_at = now;
}

-- `.update(supporting_email_count=F(…) + 1)` and `refresh_from_db`
unfoldable pub count_email : Bool → ℕ × DiscoveredAccount → M (ℕ × DiscoveredAccount)
count_email false e = pure e
count_email true (id, a) = do
  let more = record a { supporting_email_count = a.supporting_email_count + 1 }
  write (λ db. record db { accounts = update id more db.accounts })
  pure (id, more)

module _ (env : Env) where
  -- The end of `discover_account`, for the account that `get_or_create` has found or not.
  unfoldable pub discover :
      Option (ℕ × DiscoveredAccount) → DiscoveredAccount → Bool → M (ℕ × DiscoveredAccount)
  discover (some e) a counts = count_email counts e
  discover none a counts = do
    (id, stored) ← create_account_row env a
    record_state_change
        (account_event id Value.null stored.status a.user_id "discovered_account.create")
    pure (id, stored)

  -- The body of `discover_account`, which runs in one transaction.
  unfoldable pub discovery_body : ℕ → String → String → String → Bool → M (ℕ × DiscoveredAccount)
  discovery_body user_id account_number bank account_type counts = do
    kind ← λ w. (choose invalid_account_type (account_type_of account_type), w)
    let number = strip account_number
    let name = env.upper (strip bank)
    now ← gets (λ w. w.clock)
    found ← gets (λ w. first (is_account user_id number name kind) w.db.accounts)
    discover found (new_account user_id number name kind now) counts

  unfoldable pub discover_account : ℕ → String → String → String → Bool → M (ℕ × DiscoveredAccount)
  discover_account user_id account_number bank account_type counts =
      atomic (discovery_body user_id account_number bank account_type counts)

  -- `_get_owned_account`
  abbrev owned_or_fail : ℕ → Option DiscoveredAccount → M DiscoveredAccount
  owned_or_fail user_id none = raise not_found
  owned_or_fail user_id (some a) = if a.user_id == user_id then pure a else raise not_found

  -- The body of `link_account`, `dismiss_account` and `unlink_account`, which differ in the status and
  -- in the action's name; each runs in one transaction.
  unfoldable pub status_body : DiscoveredAccountStatus → String → ℕ → ℕ → M (ℕ × DiscoveredAccount)
  status_body status action id user_id = do
    row ← gets (λ w. get id w.db.accounts)
    old ← owned_or_fail user_id row
    now ← gets (λ w. w.clock)
    let a = record old { status = status; updated_at = now }
    save_account_status env id old a
    when (not (account_status_eq old.status status)) (
        record_state_change
          (account_event id (Value.account_status old.status) status user_id action))
    pure (id, normalized env a)

  pub link_account : ℕ → ℕ → M (ℕ × DiscoveredAccount)
  link_account id user_id = atomic (status_body linked "discovered_account.link" id user_id)

  pub dismiss_account : ℕ → ℕ → M (ℕ × DiscoveredAccount)
  dismiss_account id user_id =
      atomic (status_body dismissed "discovered_account.dismiss" id user_id)

  pub unlink_account : ℕ → ℕ → M (ℕ × DiscoveredAccount)
  unlink_account id user_id = atomic (status_body unlinked "discovered_account.unlink" id user_id)
