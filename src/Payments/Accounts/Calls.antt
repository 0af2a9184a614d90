-- ===== src/Payments/Accounts/Calls.antt =====
-- The calls of the account service in any order (src/apps/payments/services/discovered_account_service.py).
pub mod Guarantees
use nance_peer_lend_borrow_p.Prelude.{ℕ, ◌+◌, String, Bool, List, [], ◌∷◌}
use nance_peer_lend_borrow_p.Platform.World.{World, Env}
use nance_peer_lend_borrow_p.Payments.Accounts.{
  discover_account, link_account, dismiss_account, unlink_account,
}

pub data AccountCall : Type 0 where
  discovers_account : ℕ → String → String → String → Bool → AccountCall
  links_account : ℕ → ℕ → AccountCall
  dismisses_account : ℕ → ℕ → AccountCall
  unlinks_account : ℕ → ℕ → AccountCall
  passes : ℕ → AccountCall

unfoldable pub take_call : Env → AccountCall → World → World
take_call env (discovers_account user_id number bank kind counts) w =
    (discover_account env user_id number bank kind counts w).1
take_call env (links_account id user_id) w = (link_account env id user_id w).1
take_call env (dismisses_account id user_id) w = (dismiss_account env id user_id w).1
take_call env (unlinks_account id user_id) w = (unlink_account env id user_id w).1
take_call env (passes t) w = record w { clock = w.clock + t }

unfoldable pub take_calls : Env → List AccountCall → World → World
unfolding take_call
take_calls env [] w = w
take_calls env (c ∷ cs) w = take_calls env cs (take_call env c w)
