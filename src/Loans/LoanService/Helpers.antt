-- ===== src/Loans/LoanService/Helpers.antt =====
-- The private methods of `LoanService` (src/apps/loans/services/loan_service.py), and the creation
-- of an invited user (src/apps/accounts/managers.py, src/apps/accounts/validators.py).
use Prim.Native.Char.{code}
use nance_peer_lend_borrow_p.Prelude.{
  ℕ, ◌+◌, ◌*◌, String, Bool, true, false, not, ◌&&◌, Option, none, some, ◌∷◌, leb, ◌==◌, str_eq,
  any, first, if◌then◌else◌,
}
use nance_peer_lend_borrow_p.Prelude.Int.{ℤ, pos, leb_ℤ}
use nance_peer_lend_borrow_p.Prelude.Text.{is_empty, strip, text_len, text_append}
use nance_peer_lend_borrow_p.Platform.Table.{get, insert}
use nance_peer_lend_borrow_p.Platform.Errors.{
  validation_error, ok, amount_not_positive, same_parties, mobile_required, key_required,
  key_reused,
}
use nance_peer_lend_borrow_p.Platform.Rows.Loans.{
  User, Loan, LoanStatus, pending_invite, pending_review, loan_status_eq,
}
use nance_peer_lend_borrow_p.Platform.Rows.Notices.{Value, Payload, EntityType, row_id}
use nance_peer_lend_borrow_p.Platform.World.{
  Db, CacheEntry, M, pure, gets, or_missing, ◌>>=◌, ◌>>◌, raise_if, forbid, cache_get,
  record_state_change, Env,
}

unfoldable pub ensure_positive_amount : ℤ → M (Unit {0})
ensure_positive_amount amount = forbid (leb_ℤ amount (pos 0)) amount_not_positive

abbrev same_party : Option ℕ → Option ℕ → Bool
same_party (some b) (some l) = b == l
same_party _ _ = false

unfoldable pub ensure_distinct_parties : Option ℕ → Option ℕ → M (Unit {0})
ensure_distinct_parties borrower_id lender_id =
    forbid (same_party borrower_id lender_id) same_parties

-- `str.isdigit`
all_digits : (ℕ → Bool) → String → Bool
all_digits is_digit String.[] = true
all_digits is_digit (String.◌∷◌ c s) = is_digit (code c) && all_digits is_digit s

-- `validate_mobile_number`; an empty text is no text of digits.
mobile_number_valid : (ℕ → Bool) → String → Bool
unfolding all_digits
mobile_number_valid is_digit String.[] = false
mobile_number_valid is_digit (String.◌∷◌ c s) =
    code c == 43 && all_digits is_digit s && leb 8 (text_len s) && leb (text_len s) 15

-- `full_clean` of a new user: the number is valid, 16 characters at most, and not taken.
user_full_clean : Env → Db → User → Bool
unfolding mobile_number_valid
user_full_clean env db u =
    mobile_number_valid env.is_digit u.mobile_number
    && leb (text_len u.mobile_number) 16
    && not (is_empty u.name)
    && leb (text_len u.name) 255
    && not (any (λ (e : ℕ × User). str_eq e.1.mobile_number u.mobile_number) db.users)

abbrev insert_user : User → M (ℕ × User)
insert_user u w =
    let id = w.seq.user in
    (
      ok (id, u),
      record w {
        db = record w.db { users = insert id u w.db.users };
        seq = record w.seq { user = id + 1 };
      },
    )

-- `UserManager.create_user`, of a number that is not blank
create_user : Env → User → M (ℕ × User)
unfolding user_full_clean
create_user env u = do
  db ← gets (λ w. w.db)
  raise_if (not (user_full_clean env db u)) validation_error
  insert_user u

-- `PENDING_REVIEW if borrower.is_active else PENDING_INVITE`
abbrev pub first_status : User → LoanStatus
first_status u = if u.is_active then pending_review else pending_invite

abbrev invited_user : String → User
invited_user number = record { mobile_number = number; name = "Pending Invite"; is_active = false }

invite : Env → String → Option (ℕ × User) → M (ℕ × User × LoanStatus)
unfolding create_user
invite env number (some (id, u)) = pure (id, u, first_status u)
invite env number none = do
  (id, u) ← create_user env (invited_user number)
  pure (id, u, pending_invite)

abbrev text_or_empty : Option String → String
text_or_empty none = ""
text_or_empty (some s) = s

unfoldable pub resolve_borrower : Env → Option ℕ → Option String → M (ℕ × User × LoanStatus)
unfolding invite
resolve_borrower env (some id) mobile = do
  u ← gets (λ w. get id w.db.users)
  borrower ← or_missing u
  pure (id, borrower, first_status borrower)
resolve_borrower env none mobile = do
  let number = strip (text_or_empty mobile)
  forbid (is_empty number) mobile_required
  found ← gets (λ w. first (λ (e : ℕ × User). str_eq e.1.mobile_number number) w.db.users)
  invite env number found

-- `_cache_key`
abbrev pub cache_key : String → String → String
cache_key action key =
    text_append "loan-service:" (text_append action (text_append ":" (strip key)))

-- `IDEMPOTENCY_TTL_SECONDS`, in microseconds
abbrev pub idempotency_ttl : ℕ
idempotency_ttl = 86400 * 1000000

-- The end of `_resolve_idempotent_result`, for what the cache has returned.
replay : String → Option CacheEntry → M (Option (ℕ × Loan))
replay fingerprint none = pure none
replay fingerprint (some e) = do
  forbid (not (str_eq e.fingerprint fingerprint)) key_reused
  l ← gets (λ w. get e.loan_id w.db.loans)
  loan ← or_missing l
  pure (some (e.loan_id, loan))

unfoldable pub resolve_idempotent_result : String → String → String → M (Option (ℕ × Loan))
unfolding replay
resolve_idempotent_result action key fingerprint = do
  forbid (is_empty (strip key)) key_required
  cached ← gets (λ w. cache_get (cache_key action key) w.clock w.cache)
  replay fingerprint cached

unfoldable pub store_idempotent_result : String → String → String → ℕ → M (Unit {0})
store_idempotent_result action key fingerprint loan_id = do
  forbid (is_empty (strip key)) key_required
  λ w.
      let entry : CacheEntry = record {
        loan_id = loan_id;
        fingerprint = fingerprint;
        expires_at = w.clock + idempotency_ttl;
      } in
      (ok tt, record w { cache = (cache_key action key, entry) ∷ w.cache })

abbrev state_value : Option LoanStatus → Value
state_value none = Value.null
state_value (some s) = Value.loan_status s

abbrev unchanged : Option LoanStatus → LoanStatus → Bool
unchanged none to = false
unchanged (some from) to = loan_status_eq from to

unfoldable pub record_status_change :
    ℕ → Option LoanStatus → LoanStatus → Option ℕ → String → Payload → M (Unit {0})
record_status_change id from to actor action metadata =
    if unchanged from to
    then pure tt
    else record_state_change (record {
      entity_type = EntityType.loan;
      entity_id = row_id id;
      field_name = "status";
      from_state = state_value from;
      to_state = Value.loan_status to;
      actor_id = actor;
      metadata = ("action", Value.text action) ∷ metadata;
    })

-- Opens the definitions of this file, to evaluate them.
unfoldable pub loan_service_helpers : Unit {0}
unfolding ensure_positive_amount ensure_distinct_parties resolve_borrower resolve_idempotent_result
    store_idempotent_result record_status_change
loan_service_helpers = tt
