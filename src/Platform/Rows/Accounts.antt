-- ===== src/Platform/Rows/Accounts.antt =====
-- src/apps/accounts/models.py: the Gmail accounts of the users
use nance_peer_lend_borrow_p.Prelude.{ℕ, String, Bool, Option}

pub record GmailAccount : Type 0 where
  pub user_id : ℕ
  pub gmail_address : String
  pub google_sub : Option String
  pub access_token : String
  pub refresh_token : String
  pub token_scopes : String
  pub token_expires_at : Option ℕ
  pub last_synced_at : Option ℕ
  pub is_primary : Bool
  pub is_verified : Bool
  pub created_at : ℕ
  pub updated_at : ℕ
