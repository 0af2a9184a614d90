-- ===== src/Payments/Records.antt =====
-- `full_clean` and `save` of the models BankTransaction and DiscoveredAccount (src/apps/payments/models.py).
use nance_peer_lend_borrow_p.Prelude.{
  ℕ, ◌+◌, String, Bool, true, false, not, ◌&&◌, ◌||◌, Option, none, some, leb, ◌==◌, str_eq,
  is_some, any,
}
use nance_peer_lend_borrow_p.Prelude.Int.{pos, leb_ℤ, ltb_ℤ}
use nance_peer_lend_borrow_p.Prelude.Text.{is_empty, strip, text_len}
use nance_peer_lend_borrow_p.Platform.Table.{get, insert, update}
use nance_peer_lend_borrow_p.Platform.Errors.{ok, validation_error}
use nance_peer_lend_borrow_p.Platform.Rows.Payments.{
  BankTransaction, DiscoveredAccount, TransactionSource, manual, gmail, AccountType, savings,
  current, wallet, other, DiscoveredAccountStatus, linked, dismissed, unlinked,
}
use nance_peer_lend_borrow_p.Platform.World.{Db, M, gets, ◌>>=◌, ◌>>◌, raise_if, write, Env}

-- `clean` of both models: the number has four characters and the bank two, outer space not counted.
abbrev pub names_clean : String → String → Bool
names_clean account_number bank =
    (is_empty account_number || leb 4 (text_len (strip account_number)))
    && (is_empty bank || leb 2 (text_len (strip bank)))

-- The fields that both models have, under `max_length` and `blank`.
abbrev names_valid : String → String → Bool
names_valid account_number bank =
    not (is_empty account_number)
    && leb (text_len account_number) 32
    && not (is_empty bank)
    && leb (text_len bank) 120

abbrev pub is_gmail : TransactionSource → Bool
is_gmail manual = false
is_gmail gmail = true

-- `MinValueValidator(0.01)`, twelve digits at most, and the check constraints.
unfoldable pub transaction_fields_valid : Db → BankTransaction → Bool
transaction_fields_valid db t =
    is_some (get t.user_id db.users)
    && leb_ℤ (pos 1) t.amount
    && ltb_ℤ t.amount (pos 1000000000000)
    && names_valid t.account_number t.bank
    && leb (text_len t.raw_email_reference_id) 255
    && (is_empty t.raw_email_reference_id || is_gmail t.source)

unfoldable pub transaction_full_clean : Db → BankTransaction → Bool
unfolding transaction_fields_valid
transaction_full_clean db t = transaction_fields_valid db t && names_clean t.account_number t.bank

-- The database takes the key from the sequence.
abbrev pub insert_transaction : BankTransaction → M (ℕ × BankTransaction)
insert_transaction t w =
    let id = w.seq.transaction in
    (
      ok (id, t),
      record w {
        db = record w.db { transactions = insert id t w.db.transactions };
        seq = record w.seq { transaction = id + 1 };
      },
    )

-- `BankTransaction.objects.create`
unfoldable pub create_transaction_row : BankTransaction → M (ℕ × BankTransaction)
create_transaction_row t = do
  db ← gets (λ w. w.db)
  raise_if (not (transaction_full_clean db t)) validation_error
  insert_transaction t

abbrev pub account_type_eq : AccountType → AccountType → Bool
account_type_eq savings savings = true
account_type_eq current current = true
account_type_eq wallet wallet = true
account_type_eq other other = true
account_type_eq _ _ = false

abbrev pub account_status_eq : DiscoveredAccountStatus → DiscoveredAccountStatus → Bool
account_status_eq linked linked = true
account_status_eq dismissed dismissed = true
account_status_eq unlinked unlinked = true
account_status_eq _ _ = false

-- The row is the account of this user, number, bank and type.
abbrev pub is_account : ℕ → String → String → AccountType → ℕ × DiscoveredAccount → Bool
is_account user_id account_number bank account_type (_, a) =
    a.user_id == user_id
    && str_eq a.account_number account_number
    && str_eq a.bank bank
    && account_type_eq a.account_type account_type

abbrev another : Option ℕ → ℕ → Bool
another none j = true
another (some id) j = not (id == j)

-- `discovered_account_unique_per_user`, for a row under the key `id`
unfoldable pub account_free : Db → Option ℕ → DiscoveredAccount → Bool
account_free db id a = not (
    any
      (λ (e : ℕ × DiscoveredAccount).
        another id e.0 && is_account a.user_id a.account_number a.bank a.account_type e)
      db.accounts)

unfoldable pub account_full_clean : Db → Option ℕ → DiscoveredAccount → Bool
unfolding account_free
account_full_clean db id a =
    is_some (get a.user_id db.users)
    && names_valid a.account_number a.bank
    && names_clean a.account_number a.bank
    && account_free db id a

-- The first lines of `DiscoveredAccount.save`
abbrev pub normalized : Env → DiscoveredAccount → DiscoveredAccount
normalized env a = record a {
  account_number = strip a.account_number;
  bank = env.upper (strip a.bank);
}

-- `save(update_fields=["status", "updated_at"])` of a row that exists: these columns alone are written.
unfoldable pub save_account_status : Env → ℕ → DiscoveredAccount → DiscoveredAccount → M (Unit {0})
save_account_status env id stored a = do
  db ← gets (λ w. w.db)
  raise_if (not (account_full_clean db (some id) (normalized env a))) validation_error
  let new = record stored { status = a.status; updated_at = a.updated_at }
  write (λ db. record db { accounts = update id new db.accounts })

abbrev insert_account : DiscoveredAccount → M ℕ
insert_account a w =
    let id = w.seq.account in
    (
      ok id,
      record w {
        db = record w.db { accounts = insert id a w.db.accounts };
        seq = record w.seq { account = id + 1 };
      },
    )

-- `DiscoveredAccount.objects.create`: the key, and the row as it is stored
unfoldable pub create_account_row : Env → DiscoveredAccount → M (ℕ × DiscoveredAccount)
create_account_row env a = do
  let stored = normalized env a
  db ← gets (λ w. w.db)
  raise_if (not (account_full_clean db none stored)) validation_error
  id ← insert_account stored
  λ w. (ok (id, stored), w)
