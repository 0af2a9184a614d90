-- ===== src/Accounts.antt =====
-- The Gmail accounts that users connect (src/apps/accounts/services/gmail_oauth_service.py). What Google answers
-- to the calls is an argument; the mails themselves are synchronised elsewhere.
pub mod Count
pub mod Primary
use nance_peer_lend_borrow_p.Prelude.{
  ℕ, ◌+◌, ◌*◌, String, Bool, true, false, not, ◌&&◌, ◌||◌, Option, none, some, List, [], ◌∷◌, ◌==◌,
  leb, any, first, str_eq, if◌then◌else◌,
}
use nance_peer_lend_borrow_p.Prelude.Text.{is_empty, text_len}
use nance_peer_lend_borrow_p.Platform.Table.{Table, get, insert, update}
use nance_peer_lend_borrow_p.Platform.Errors.{
  ok, integrity_error, data_error, does_not_exist, not_configured, call_failed, no_access_token,
  profile_incomplete, other_users_gmail, no_refresh_token, token_expired, invalid_operation,
}
use nance_peer_lend_borrow_p.Platform.Rows.Accounts.{GmailAccount}
use nance_peer_lend_borrow_p.Platform.World.{
  M, pure, raise, gets, ◌>>=◌, ◌>>◌, raise_if, forbid, write, atomic, Env,
}

-- `TokenPayload`: the answer of the token endpoint, "" for a missing text and 3600 for a missing time.
pub record TokenPayload : Type 0 where
  pub access_token : String
  pub refresh_token : String
  pub expires_in : ℕ
  pub scope : String

pub record GmailProfile : Type 0 where
  pub email : String
  pub sub : String

-- `_http_post_form` and `_http_get_json`: no answer raises.
abbrev answered : {A : Type 0} → Option A → M A
answered none = raise (invalid_operation call_failed)
answered (some a) = pure a

-- `_exchange_auth_code` and `_refresh_access_token` with `_build_token_payload`
unfoldable pub fetch_token : Bool → Option TokenPayload → M TokenPayload
fetch_token configured answer = do
  forbid (not configured) not_configured
  t ← answered answer
  forbid (is_empty t.access_token) no_access_token
  pure t

-- `_fetch_gmail_profile`
unfoldable pub fetch_gmail_profile : Env → Option GmailProfile → M GmailProfile
fetch_gmail_profile env answer = do
  p ← answered answer
  forbid (is_empty p.email || is_empty p.sub) profile_incomplete
  pure (record p { email = env.lower p.email })

-- The row is this user's, or another's, under the address.
abbrev pub is_own : ℕ → String → ℕ × GmailAccount → Bool
is_own user_id email (_, a) = a.user_id == user_id && str_eq a.gmail_address email

abbrev is_others : ℕ → String → ℕ × GmailAccount → Bool
is_others user_id email (_, a) = not (a.user_id == user_id) && str_eq a.gmail_address email

abbrev new_gmail_account : ℕ → String → ℕ → GmailAccount
new_gmail_account user_id email now = record {
  user_id = user_id;
  gmail_address = email;
  google_sub = none;
  access_token = "";
  refresh_token = "";
  token_scopes = "";
  token_expires_at = none;
  last_synced_at = none;
  is_primary = false;
  is_verified = true;
  created_at = now;
  updated_at = now;
}

abbrev insert_gmail_account : GmailAccount → M (ℕ × GmailAccount)
insert_gmail_account a w =
    let id = w.seq.gmail_account in
    (
      ok (id, a),
      record w {
        db = record w.db { gmail_accounts = insert id a w.db.gmail_accounts };
        seq = record w.seq { gmail_account = id + 1 };
      },
    )

-- The end of `get_or_create`, for the row that is found or not.
unfoldable pub find_or_insert : Option (ℕ × GmailAccount) → GmailAccount → M (ℕ × GmailAccount)
find_or_insert (some e) a = pure e
find_or_insert none a = do
  raise_if (not (leb (text_len a.gmail_address) 254)) data_error
  insert_gmail_account a

-- `.filter(user=user, is_primary=True).update(is_primary=False)`
unfoldable pub clear_primary : ℕ → Table GmailAccount → Table GmailAccount
clear_primary user_id [] = []
clear_primary user_id ((j, a) ∷ ts) =
    (j, if a.user_id == user_id && a.is_primary then record a { is_primary = false } else a)
    ∷ clear_primary user_id ts

-- Another account of the user is the primary one.
abbrev pub is_other_primary : ℕ → ℕ → ℕ × GmailAccount → Bool
is_other_primary user_id id (j, a) = a.user_id == user_id && a.is_primary && not (j == id)

-- Whether the account is to be the primary one, and the write that makes room for it.
unfoldable pub choose_primary : Bool → ℕ → ℕ → GmailAccount → M Bool
unfolding clear_primary
choose_primary true user_id id a = do
  write (λ db. record db { gmail_accounts = clear_primary user_id db.gmail_accounts })
  pure true
choose_primary false user_id id a = do
  taken ← gets (λ w. any (is_other_primary user_id id) w.db.gmail_accounts)
  pure (if taken then a.is_primary else true)

abbrev has_sub : Option String → String → Bool
has_sub none sub = false
has_sub (some s) sub = str_eq s sub

-- `google_sub` is unique.
abbrev sub_taken : ℕ → String → Table GmailAccount → Bool
sub_taken id sub ts =
    any (λ (e : ℕ × GmailAccount). not (e.0 == id) && has_sub e.1.google_sub sub) ts

-- The tokens of an answer; a refresh token that is not given leaves the old one.
abbrev pub with_tokens : TokenPayload → ℕ → GmailAccount → GmailAccount
with_tokens t now a = record a {
  access_token = t.access_token;
  refresh_token = if is_empty t.refresh_token then a.refresh_token else t.refresh_token;
  token_scopes = t.scope;
  token_expires_at = some (now + t.expires_in * 1000000);
  updated_at = now;
}

-- The end of `connect_gmail`, for the account that is found or created.
unfoldable pub settle_connection :
    ℕ → Bool → TokenPayload → GmailProfile → ℕ × GmailAccount → M GmailAccount
unfolding choose_primary
settle_connection user_id set_primary t p (id, a) = do
  now ← gets (λ w. w.clock)
  primary ← choose_primary set_primary user_id id a
  rows ← gets (λ w. w.db.gmail_accounts)
  raise_if (not (leb (text_len p.sub) 255)) data_error
  raise_if (sub_taken id p.sub rows) integrity_error
  let new = record (with_tokens t now a) {
    is_primary = primary;
    google_sub = some p.sub;
    is_verified = true;
  }
  write (λ db. record db { gmail_accounts = update id new db.gmail_accounts })
  pure new

-- `connect_gmail` after the calls of Google.
unfoldable pub connect_locked : ℕ → Bool → TokenPayload → GmailProfile → M GmailAccount
unfolding find_or_insert settle_connection
connect_locked user_id set_primary t p = do
  db ← gets (λ w. w.db)
  now ← gets (λ w. w.clock)
  forbid (any (is_others user_id p.email) db.gmail_accounts) other_users_gmail
  e ←
      find_or_insert (first (is_own user_id p.email) db.gmail_accounts)
        (new_gmail_account user_id p.email now)
  settle_connection user_id set_primary t p e

module _ (env : Env) where
  unfoldable pub connect_body :
      ℕ → Bool → Bool → Option TokenPayload → Option GmailProfile → M GmailAccount
  connect_body user_id set_primary configured token profile = do
    t ← fetch_token configured token
    p ← fetch_gmail_profile env profile
    connect_locked user_id set_primary t p

  unfoldable pub connect_gmail :
      ℕ → Bool → Bool → Option TokenPayload → Option GmailProfile → M GmailAccount
  connect_gmail user_id set_primary configured token profile =
      atomic (connect_body user_id set_primary configured token profile)

-- `objects.get(id=…, user=user)`
abbrev gmail_of_user : ℕ → Option GmailAccount → M GmailAccount
gmail_of_user user_id none = raise does_not_exist
gmail_of_user user_id (some a) = if a.user_id == user_id then pure a else raise does_not_exist

unfoldable pub renew : ℕ → GmailAccount → Bool → Option TokenPayload → M GmailAccount
renew id a configured answer = do
  forbid (is_empty a.refresh_token) no_refresh_token
  t ← fetch_token configured answer
  now ← gets (λ w. w.clock)
  let new = with_tokens t now a
  write (λ db. record db { gmail_accounts = update id new db.gmail_accounts })
  pure new

unfoldable pub refresh_body : ℕ → ℕ → Bool → Option TokenPayload → M GmailAccount
unfolding renew
refresh_body user_id id configured answer = do
  row ← gets (λ w. get id w.db.gmail_accounts)
  a ← gmail_of_user user_id row
  renew id a configured answer

unfoldable pub refresh_gmail_token : ℕ → ℕ → Bool → Option TokenPayload → M GmailAccount
refresh_gmail_token user_id id configured answer =
    atomic (refresh_body user_id id configured answer)
