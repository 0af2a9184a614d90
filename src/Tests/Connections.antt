-- ===== src/Tests/Connections.antt =====
-- A user connects two Gmail accounts.
use nance_peer_lend_borrow_p.Prelude.{◌≡◌, refl, some, none, true, false, arith, ◌∷◌, []}
use nance_peer_lend_borrow_p.Prelude.Text.{text_len}
use nance_peer_lend_borrow_p.Platform.Errors.{ok}
use nance_peer_lend_borrow_p.Platform.Rows.Accounts.{GmailAccount}
use nance_peer_lend_borrow_p.Platform.World.{World}
use nance_peer_lend_borrow_p.Accounts.{
  TokenPayload, GmailProfile, connect_gmail, connect_body, connect_locked, fetch_token,
  fetch_gmail_profile,
}
use nance_peer_lend_borrow_p.Accounts.Count.{HasPrimary, primaries}
use nance_peer_lend_borrow_p.Accounts.Primary.{InFine, connect_gmail-HasPrimary}
use nance_peer_lend_borrow_p.Tests.Sample.{env, empty}

abbrev token : TokenPayload
token = record { access_token = "a"; refresh_token = "r"; expires_in = 3600; scope = "s" }

abbrev profile : GmailProfile
profile = record { email = "ann@gmail.com"; sub = "1" }

abbrev ann : GmailAccount
ann = record {
  user_id = 1;
  gmail_address = "ann@gmail.com";
  google_sub = some "1";
  access_token = "a";
  refresh_token = "r";
  token_scopes = "s";
  token_expires_at = some 3600001000;
  last_synced_at = none;
  is_primary = true;
  is_verified = true;
  created_at = 1000;
  updated_at = 1000;
}

abbrev connected : World
connected = record empty {
  db = record empty.db { gmail_accounts = (1, ann) ∷ [] };
  seq = record empty.seq { gmail_account = 2 };
}

empty-InFine : InFine empty
unfolding primaries
empty-InFine = (tt, tt, λ u. omega arith)

connect_run : connect_gmail env 1 false true (some token) (some profile) empty ≡ (ok ann, connected)
unfolding connect_gmail connect_body connect_locked fetch_token fetch_gmail_profile text_len
connect_run = refl

connect_gmail-HasPrimary_example :
    HasPrimary 1 connected.db.gmail_accounts connected.seq.gmail_account
connect_gmail-HasPrimary_example =
    connect_gmail-HasPrimary env 1 false true (some token) (some profile) empty connected ann
      empty-InFine connect_run
