-- ===== src/Payments/Accounts/Calls/Guarantees.antt =====
-- What holds of the discovered accounts after any calls of their service, failed ones included
-- (src/apps/payments/services/discovered_account_service.py).
use nance_peer_lend_borrow_p.Prelude.{
  ℕ, ◌+◌, ◌≡◌, refl, String, Bool, true, false, none, some, List, [], ◌∷◌, first, arith,
  if◌then◌else◌, Option-cases, inl, inr,
}
use nance_peer_lend_borrow_p.Prelude.Text.{strip}
use nance_peer_lend_borrow_p.Platform.Table.{get, insert, update, first-keyed}
use nance_peer_lend_borrow_p.Platform.Errors.{
  Result, ok, err, Result-cases, not_found, invalid_account_type,
}
use nance_peer_lend_borrow_p.Platform.Rows.Payments.{
  DiscoveredAccount, DiscoveredAccountStatus, linked, dismissed, unlinked,
}
use nance_peer_lend_borrow_p.Platform.Rows.Notices.{Value}
use nance_peer_lend_borrow_p.Platform.World.{
  Db, World, Env, atomic, close_transaction, record_state_change,
}
use nance_peer_lend_borrow_p.Platform.Post.{Post, Post-of_ok, Post-of_err}
use nance_peer_lend_borrow_p.Payments.Records.{
  is_account, account_full_clean, account_free, normalized, create_account_row, save_account_status,
  account_status_eq,
}
use nance_peer_lend_borrow_p.Payments.Transactions.{choose, account_type_of}
use nance_peer_lend_borrow_p.Payments.Accounts.{
  discover_account, link_account, dismiss_account, unlink_account, discovery_body, discover,
  count_email, status_body, account_event, new_account,
}
use nance_peer_lend_borrow_p.Payments.Accounts.Book.{
  IsBook, has_account, finds-IsBook, keeps-IsBook, marks_or_keeps,
}
use nance_peer_lend_borrow_p.Payments.Accounts.Calls.{
  AccountCall, discovers_account, links_account, dismisses_account, unlinks_account, passes,
  take_call, take_calls,
}

abbrev pub InBook : World → Type 0
InBook w = IsBook w.db.accounts w.db.audit w.seq.account

-- `full_clean` of a new account finds none with its user, number, bank and type.
clean_free :
    (db : Db) (a : DiscoveredAccount)
    → account_full_clean db none a ≡ true
    → has_account a db.accounts ≡ false
unfolding account_full_clean account_free
clean_free db a h = ground (arith, h)

module _ (env : Env) (a : DiscoveredAccount) (w : World) where
  abbrev found_row : DiscoveredAccount
  found_row = normalized env a

  created-effect :
      (counts : Bool) (r : ℕ × DiscoveredAccount)
      → (discover env none a counts w).0 ≡ ok r
      → (account_full_clean w.db none found_row ≡ true)
        × ((discover env none a counts w).1 ≡ record w {
          db = record w.db {
            accounts = insert w.seq.account found_row w.db.accounts;
            audit =
                account_event w.seq.account Value.null a.status a.user_id
                  "discovered_account.create"
                ∷ w.db.audit;
          };
          seq = record w.seq { account = w.seq.account + 1 };
        })
  unfolding discover create_account_row record_state_change
  created-effect counts r e = ground arith

  created-InBook :
      (counts : Bool) → InBook w → Post (λ _ v. InBook v) (discover env none a counts w)
  created-InBook counts i =
      Post-of_ok (λ _ v. InBook v) (discover env none a counts w)
        λ r e.
          let f = created-effect counts r e in
          rw f.1 (
            finds-IsBook w.db.accounts w.db.audit w.seq.account found_row
              (account_event w.seq.account Value.null a.status a.user_id
                "discovered_account.create")
              i (clean_free w.db found_row f.0) (refl, refl, refl))

  found-InBook :
      (id : ℕ) (b : DiscoveredAccount) (counts : Bool)
      → InBook w
      → get id w.db.accounts ≡ some b
      → Post (λ _ v. InBook v) (discover env (some (id, b)) a counts w)
  unfolding discover count_email
  found-InBook id b false i h = i
  found-InBook id b true i h =
      keeps-IsBook w.db.accounts w.db.audit w.seq.account id
        (record b { supporting_email_count = b.supporting_email_count + 1 }) b i h
        (refl, refl, refl, refl) refl

module _ (env : Env) (user_id : ℕ) (number bank kind : String) (counts : Bool) (w : World) where
  discovery-InBook :
      InBook w → Post (λ _ v. InBook v) (discovery_body env user_id number bank kind counts w)
  unfolding discovery_body
  discovery-InBook i = elim (Result-cases (choose invalid_account_type (account_type_of kind))) [
    | inr (x, e) ↦ ground (arith, e)
    | inl (k, e) ↦
        let p = is_account user_id (strip number) (env.upper (strip bank)) k in
        let a = new_account user_id (strip number) (env.upper (strip bank)) k w.clock in
        elim (Option-cases (first p w.db.accounts)) [
          | inl n ↦ rw (e, n) (created-InBook env a w counts i)
          | inr ((id, b), h) ↦
              rw (e, h)
                (found-InBook env a w id b counts i (first-keyed p id b w.db.accounts i.keyed h))
        ]
  ]

module _ (env : Env) (status : DiscoveredAccountStatus) (action : String) (id user_id : ℕ)
    (w : World) where
  abbrev marked : DiscoveredAccount → DiscoveredAccount
  marked b = record b { status = status; updated_at = w.clock }

  status-effect :
      (b : DiscoveredAccount) (r : ℕ × DiscoveredAccount)
      → get id w.db.accounts ≡ some b
      → (status_body env status action id user_id w).0 ≡ ok r
      → (b.user_id ≡ user_id)
        × ((status_body env status action id user_id w).1 ≡ record w {
          db = record w.db {
            accounts = update id (marked b) w.db.accounts;
            audit =
                if account_status_eq b.status status
                then w.db.audit
                else account_event id (Value.account_status b.status) status user_id action
                  ∷ w.db.audit;
          };
        })
  unfolding status_body save_account_status record_state_change
  status-effect b r h e = ground (arith, h)

  missing-effect :
      get id w.db.accounts ≡ none → (status_body env status action id user_id w).0 ≡ err not_found
  unfolding status_body
  missing-effect h = ground (arith, h)

  status-InBook : InBook w → Post (λ _ v. InBook v) (status_body env status action id user_id w)
  status-InBook i = elim (Option-cases (get id w.db.accounts)) [
    | inl n ↦
        Post-of_err (λ _ v. InBook v) (status_body env status action id user_id w) not_found
          (missing-effect n)
    | inr (b, h) ↦
        Post-of_ok (λ _ v. InBook v) (status_body env status action id user_id w)
          λ r e.
            let f = status-effect b r h e in
            rw f.1 (
              marks_or_keeps w.db.accounts w.db.audit w.seq.account id (marked b) b
                (account_event id (Value.account_status b.status) status user_id action) i h
                (refl, refl, refl, refl) (refl, refl, refl))
  ]

module _ {A : Type 0} where
  -- An account call that fails takes no key.
  KeepsKey : Result A × World → ℕ → Type 0
  KeepsKey (ok a, v) n = Unit
  KeepsKey (err e, v) n = v.seq.account ≡ n

  close-InBook :
      (w : World) (r : Result A × World)
      → InBook w
      → KeepsKey r w.seq.account
      → Post (λ _ v. InBook v) r
      → InBook (close_transaction w r).1
  unfolding KeepsKey
  close-InBook w (ok a, v) i k p = p
  close-InBook w (err e, v) i k p = rw k i

discovery-key :
    (env : Env) (user_id : ℕ) (number bank kind : String) (counts : Bool) (w : World)
    → KeepsKey (discovery_body env user_id number bank kind counts w) w.seq.account
unfolding discovery_body discover count_email create_account_row record_state_change KeepsKey
discovery-key env user_id number bank kind counts w = ground arith

status-key :
    (env : Env) (status : DiscoveredAccountStatus) (action : String) (id user_id : ℕ) (w : World)
    → KeepsKey (status_body env status action id user_id w) w.seq.account
unfolding status_body save_account_status record_state_change KeepsKey
status-key env status action id user_id w = ground arith

status_call-InBook :
    (env : Env) (status : DiscoveredAccountStatus) (action : String) (id user_id : ℕ) (w : World)
    → InBook w
    → InBook (atomic (status_body env status action id user_id) w).1
status_call-InBook env status action id user_id w i =
    let v = record w { hooks = [] } in
    close-InBook w (status_body env status action id user_id v) i
      (status-key env status action id user_id v) (status-InBook env status action id user_id v i)

take_call-InBook : (env : Env) (c : AccountCall) (w : World) → InBook w → InBook (take_call env c w)
unfolding take_call discover_account link_account dismiss_account unlink_account
take_call-InBook env (discovers_account user_id number bank kind counts) w i =
    let v = record w { hooks = [] } in
    close-InBook w (discovery_body env user_id number bank kind counts v) i
      (discovery-key env user_id number bank kind counts v)
      (discovery-InBook env user_id number bank kind counts v i)
take_call-InBook env (links_account id user_id) w i =
    status_call-InBook env linked "discovered_account.link" id user_id w i
take_call-InBook env (dismisses_account id user_id) w i =
    status_call-InBook env dismissed "discovered_account.dismiss" id user_id w i
take_call-InBook env (unlinks_account id user_id) w i =
    status_call-InBook env unlinked "discovered_account.unlink" id user_id w i
take_call-InBook env (passes t) w i = i

-- Where the discovered accounts are in order before, they are so after any calls of their service in any
-- order: keys do not repeat, a user has no two accounts with one number, bank and type, and the newest
-- audit event about an account leads to its status.
pub take_calls-InBook :
    (env : Env) (cs : List AccountCall) (w : World) → InBook w → InBook (take_calls env cs w)
unfolding take_calls
take_calls-InBook env [] w i = i
take_calls-InBook env (c ∷ cs) w i =
    take_calls-InBook env cs (take_call env c w) (take_call-InBook env c w i)
