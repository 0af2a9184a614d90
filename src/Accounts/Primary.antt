-- ===== src/Accounts/Primary.antt =====
-- The primary Gmail account of a user (src/apps/accounts/services/gmail_oauth_service.py).
use nance_peer_lend_borrow_p.Prelude.{
  ℕ, ◌+◌, ◌≡◌, refl, sym, ap, ◌∙◌, String, Bool, true, false, not, ◌||◌, inl, inr, Option, none,
  some, [], ◌∷◌, arith, any, first, Bool-cases, Option-cases, leb, if◌then◌else◌,
}
use nance_peer_lend_borrow_p.Prelude.Text.{text_len, is_empty}
use nance_peer_lend_borrow_p.Platform.Table.{
  Table, get, insert, update, IsKeyed-insert, Below-insert, get_next, get-insert, first-keyed,
}
use nance_peer_lend_borrow_p.Platform.Errors.{
  ok, data_error, invalid_operation, other_users_gmail, no_access_token, profile_incomplete,
}
use nance_peer_lend_borrow_p.Platform.Rows.Accounts.{GmailAccount}
use nance_peer_lend_borrow_p.Platform.World.{World, Env, pure, atomic}
use nance_peer_lend_borrow_p.Platform.Post.{
  Post, Post-of_ok, Post-bind, Post-ok, Post-atomic, Post-raise_if,
}
use nance_peer_lend_borrow_p.Accounts.{
  TokenPayload, GmailProfile, clear_primary, is_other_primary, is_own, new_gmail_account,
  find_or_insert, fetch_token, fetch_gmail_profile, is_others, choose_primary, connect_locked,
  settle_connection, connect_body, connect_gmail, with_tokens,
}
use nance_peer_lend_borrow_p.Accounts.Count.{
  primaries-insert, no_other, some_other, IsFine, HasPrimary, first-HasPrimary, kept-HasPrimary,
  cleared-HasPrimary,
}

module _ (u : ℕ) (t : TokenPayload) (p : GmailProfile) (id : ℕ) (a : GmailAccount) (w : World) where
  abbrev settled : Bool → GmailAccount
  settled primary = record (with_tokens t w.clock a) {
    is_primary = primary;
    google_sub = some p.sub;
    is_verified = true;
  }

  set_effect :
      (r : GmailAccount)
      → (settle_connection u true t p (id, a) w).0 ≡ ok r
      → (settle_connection u true t p (id, a) w).1 ≡ record w {
        db = record w.db {
          gmail_accounts = update id (settled true) (clear_primary u w.db.gmail_accounts);
        };
      }
  unfolding settle_connection choose_primary
  set_effect r e = ground arith

  choice_effect :
      (taken : Bool) (r : GmailAccount)
      → any (is_other_primary u id) w.db.gmail_accounts ≡ taken
      → (settle_connection u false t p (id, a) w).0 ≡ ok r
      → (settle_connection u false t p (id, a) w).1 ≡ record w {
        db = record w.db {
          gmail_accounts =
              update id (settled (if taken then a.is_primary else true)) w.db.gmail_accounts;
        };
      }
  unfolding settle_connection choose_primary
  choice_effect taken r h e = ground (arith, h)

  settle-HasPrimary :
      (set_primary : Bool)
      → IsFine w.db.gmail_accounts w.seq.gmail_account
      → get id w.db.gmail_accounts ≡ some a
      → a.user_id ≡ u
      → Post
          (λ _ v. HasPrimary u v.db.gmail_accounts v.seq.gmail_account)
          (settle_connection u set_primary t p (id, a) w)
  settle-HasPrimary true i g e = Post-of_ok _ (settle_connection u true t p (id, a) w) λ r f.
      rw (set_effect r f) (
        cleared-HasPrimary u w.seq.gmail_account id (settled true) a w.db.gmail_accounts i g e e
          refl)
  settle-HasPrimary false i g e =
      elim (Bool-cases (any (is_other_primary u id) w.db.gmail_accounts)) [
        | inl h ↦ Post-of_ok _ (settle_connection u false t p (id, a) w) λ r f.
            rw (choice_effect true r h f) (
              kept-HasPrimary u w.seq.gmail_account id (settled a.is_primary) a w.db.gmail_accounts
                i g refl refl (some_other u id w.db.gmail_accounts h))
        | inr h ↦ Post-of_ok _ (settle_connection u false t p (id, a) w) λ r f.
            rw (choice_effect false r h f) (
              first-HasPrimary u w.seq.gmail_account id (settled true) a w.db.gmail_accounts i g e e
                refl (no_other u id a w.db.gmail_accounts h g i.0))
      ]

abbrev pub InFine : World → Type 0
InFine w = IsFine w.db.gmail_accounts w.seq.gmail_account

-- The account is there and is the user's.
abbrev Found : ℕ → ℕ × GmailAccount → World → Type 0
Found u (id, a) v = InFine v × (get id v.db.gmail_accounts ≡ some a) × (a.user_id ≡ u)

first-holds :
    (p : ℕ × GmailAccount → Bool) (x : ℕ × GmailAccount) (ts : Table GmailAccount)
    → first p ts ≡ some x
    → p x ≡ true
first-holds p x [] h = cc
first-holds p x (y ∷ ts) h = elim (Bool-cases (p y)) [
  | inl e ↦ let q : y ≡ x = ground (arith, h, e) in ap p (sym q) ∙ e
  | inr e ↦ first-holds p x ts (ground (arith, h, e))
]

own-user :
    (u : ℕ) (email : String) (id : ℕ) (a : GmailAccount)
    → is_own u email (id, a) ≡ true
    → a.user_id ≡ u
own-user u email id a h = ground (arith, h)

module _ (u : ℕ) (email : String) (w : World) where
  abbrev fresh_row : GmailAccount
  fresh_row = new_gmail_account u email w.clock

  inserted-Found :
      InFine w
      → Found u
          (w.seq.gmail_account, fresh_row)
          (record w {
            db = record w.db {
              gmail_accounts = insert w.seq.gmail_account fresh_row w.db.gmail_accounts;
            };
            seq = record w.seq { gmail_account = w.seq.gmail_account + 1 };
          })
  inserted-Found (k, l, m) =
      let n = w.seq.gmail_account in
      let free = get_next n w.db.gmail_accounts l in
      (
        (
          IsKeyed-insert n fresh_row w.db.gmail_accounts free k,
          Below-insert n fresh_row w.db.gmail_accounts l,
          λ v. ground (arith, primaries-insert v n fresh_row w.db.gmail_accounts, m v),
        ),
        get-insert n n fresh_row w.db.gmail_accounts free ∙ ground arith,
        refl,
      )

  find-Found :
      InFine w
      → Post (Found u) (find_or_insert (first (is_own u email) w.db.gmail_accounts) fresh_row w)
  unfolding find_or_insert
  find-Found i = elim (Option-cases (first (is_own u email) w.db.gmail_accounts)) [
    | inl n ↦ rw n (
        Post-raise_if (Found u) (not (leb (text_len email) 254)) data_error _ w
          λ e. inserted-Found i)
    | inr ((id, a), h) ↦ rw h (
      i,
      first-keyed (is_own u email) id a w.db.gmail_accounts i.0 h,
      own-user u email id a (first-holds _ _ w.db.gmail_accounts h),
    )
  ]

module _ (env : Env) (u : ℕ) (set_primary : Bool) where
  -- What holds after a connection that succeeds.
  abbrev Connected : GmailAccount → World → Type 0
  Connected a v = HasPrimary u v.db.gmail_accounts v.seq.gmail_account

  locked-HasPrimary :
      (t : TokenPayload) (p : GmailProfile) (w : World)
      → InFine w
      → Post Connected (connect_locked u set_primary t p w)
  unfolding connect_locked
  locked-HasPrimary t p w i =
      Post-raise_if Connected (any (is_others u p.email) w.db.gmail_accounts)
        (invalid_operation other_users_gmail) _ w
        λ e.
          Post-bind (Found u) Connected
            (find_or_insert (first (is_own u p.email) w.db.gmail_accounts)
              (new_gmail_account u p.email w.clock))
            (settle_connection u set_primary t p) w (find-Found u p.email w i)
            λ (r : ℕ × GmailAccount) v f. settle-HasPrimary u t p r.0 r.1 v set_primary f.0 f.1 f.2

  token-InFine :
      (configured : Bool) (answer : Option TokenPayload) (w : World)
      → InFine w
      → Post (λ _ v. InFine v) (fetch_token configured answer w)
  unfolding fetch_token
  token-InFine false answer w i = tt
  token-InFine true none w i = tt
  token-InFine true (some t) w i =
      Post-raise_if (λ _ v. InFine v) (is_empty t.access_token) (invalid_operation no_access_token)
        (λ _. pure t) w λ e. i

  profile-InFine :
      (answer : Option GmailProfile) (w : World)
      → InFine w
      → Post (λ _ v. InFine v) (fetch_gmail_profile env answer w)
  unfolding fetch_gmail_profile
  profile-InFine none w i = tt
  profile-InFine (some p) w i =
      Post-raise_if (λ _ v. InFine v) (is_empty p.email || is_empty p.sub)
        (invalid_operation profile_incomplete) (λ _. pure (record p { email = env.lower p.email }))
        w λ e. i

  body-HasPrimary :
      (configured : Bool) (token : Option TokenPayload) (profile : Option GmailProfile) (w : World)
      → InFine w
      → Post Connected (connect_body env u set_primary configured token profile w)
  unfolding connect_body
  body-HasPrimary configured token profile w i =
      Post-bind (λ _ v. InFine v) Connected (fetch_token configured token) _ w
        (token-InFine configured token w i)
        λ t v j.
          Post-bind (λ _ x. InFine x) Connected (fetch_gmail_profile env profile) _ v
            (profile-InFine profile v j) λ q x k. locked-HasPrimary t q x k

-- Where keys do not repeat and no user has two primary Gmail accounts, this stays so when an account is connected,
-- and the user who connects it has exactly one primary account afterwards.
pub connect_gmail-HasPrimary :
    (env : Env) (u : ℕ) (set_primary configured : Bool) (token : Option TokenPayload)
    (profile : Option GmailProfile) (w w' : World) (a : GmailAccount)
    → InFine w
    → connect_gmail env u set_primary configured token profile w ≡ (ok a, w')
    → HasPrimary u w'.db.gmail_accounts w'.seq.gmail_account
unfolding connect_gmail
connect_gmail-HasPrimary env u set_primary configured token profile w w' a i e =
    let m = connect_body env u set_primary configured token profile in
    Post-ok (Connected env u set_primary) (atomic m w) a w'
      (Post-atomic (Connected env u set_primary) m w
        (body-HasPrimary env u set_primary configured token profile (record w { hooks = [] }) i))
      e
