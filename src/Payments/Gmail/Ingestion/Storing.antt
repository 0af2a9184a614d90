-- ===== src/Payments/Gmail/Ingestion/Storing.antt =====
-- What a bank's mail with a payment leaves behind, once it is ingested
-- (src/apps/payments/services/gmail_ingestion_service.py).
use nance_peer_lend_borrow_p.Prelude.{
  ℕ, ◌≡◌, ◌≤◌, ◌<◌, ◌+◌, refl, ◌∙◌, String, Bool, true, ◌&&◌, some, [], arith, ◌==◌, if◌then◌else◌,
  is_some, any, leb, eq_refl, length, str_eq,
}
use nance_peer_lend_borrow_p.Prelude.Text.{text_len}
use nance_peer_lend_borrow_p.Platform.Table.{Table, get, insert, any-insert}
use nance_peer_lend_borrow_p.Platform.Errors.{Result, ok}
use nance_peer_lend_borrow_p.Platform.Rows.Payments.{
  BankTransaction, DiscoveredAccount, AccountType, TransactionDirection, gmail,
}
use nance_peer_lend_borrow_p.Platform.World.{
  Db, World, Env, record_state_change, and_then, pure, ◌>>◌,
}
use nance_peer_lend_borrow_p.Payments.Records.{is_account, is_gmail}
use nance_peer_lend_borrow_p.Payments.Transactions.{
  build, create_transaction, new_transaction, direction_of, account_type_of, source_of,
}
use nance_peer_lend_borrow_p.Payments.Accounts.{discover_account}
use nance_peer_lend_borrow_p.Payments.Gmail.Parsers.{ParsedTransaction}
use nance_peer_lend_borrow_p.Payments.Gmail.Ingestion.{
  Mail, Stats, infer_account_type, infer_direction, infer_bank_name, transaction_input,
  parsed_event, store_transaction, account_number_of, hundredths, is_stored,
  discovered_account_exists,
}
use nance_peer_lend_borrow_p.Payments.Gmail.Ingestion.Names.{IsNumber, IsBank}
use nance_peer_lend_borrow_p.Payments.Gmail.Ingestion.Discovery.{
  creation-run, inferred_type, inferred_direction, row_clean, length-insert, IsDiscovered,
  discovery-run,
}

abbrev stored_stats : Bool → Stats
stored_stats known = record {
  transaction_count = 1;
  discovered_account_count = if known then 0 else 1;
  ignored_count = 0;
}

-- The answer, with the rows that there are more of.
abbrev pub IsStoring : ℕ → String → World → Result Stats × World → Type 0
IsStoring user_id id w (r, v) =
    (known : Bool) × (r ≡ ok (stored_stats known))
    × (is_stored user_id id v.db ≡ true)
    × (length v.db.transactions ≡ length w.db.transactions + 1)
    × (length v.db.accounts ≡ length w.db.accounts + (if known then 0 else 1))

module _ (env : Env) (user_id : ℕ) (m : Mail) (t : ParsedTransaction) (now : ℕ) where
  abbrev row : TransactionDirection → AccountType → BankTransaction
  row d k = new_transaction (transaction_input env user_id m t now) d k gmail now

  build-run :
      (d : TransactionDirection) (k : AccountType)
      → direction_of (infer_direction env m) ≡ some d
      → account_type_of (infer_account_type env m) ≡ some k
      → build now (transaction_input env user_id m t now) ≡ ok (row d k)
  unfolding build source_of
  build-run d k e f = rw (e, f) refl

  row_stored :
      (d : TransactionDirection) (k : AccountType) (n : ℕ) (ts : Table BankTransaction)
      → any
          (λ (e : ℕ × BankTransaction).
            e.1.user_id == user_id
            && is_gmail e.1.source
            && str_eq e.1.raw_email_reference_id m.gmail_message_id)
          (insert n (row d k) ts)
        ≡ true
  row_stored d k n ts =
      any-insert
        (λ (e : ℕ × BankTransaction).
          e.1.user_id == user_id
          && is_gmail e.1.source
          && str_eq e.1.raw_email_reference_id m.gmail_message_id)
        n (row d k) ts
      ∙ ground (arith, eq_refl m.gmail_message_id)

module _ (env : Env) (user_id : ℕ) (m : Mail) (t : ParsedTransaction) (w : World) where
  abbrev after_creation : TransactionDirection → AccountType → World
  after_creation d k = record w {
    db = record w.db {
      transactions = insert w.seq.transaction (row env user_id m t w.clock d k) w.db.transactions;
    };
    seq = record w.seq { transaction = w.seq.transaction + 1 };
    hooks = [];
  }

  after_discovery :
      (v : World) (known : Bool) (r : Result (ℕ × DiscoveredAccount) × World)
      → IsDiscovered v known r
      → is_stored user_id m.gmail_message_id v.db ≡ true
      → (length v.db.transactions ≡ length w.db.transactions + 1)
      → (length v.db.accounts ≡ length w.db.accounts)
      → leb (text_len m.gmail_message_id) 64 ≡ true
      → IsStoring user_id m.gmail_message_id w (
          and_then r
            λ e. record_state_change (parsed_event env user_id m t) >> pure (stored_stats known))
  unfolding record_state_change is_stored
  after_discovery v known (r, u) (e, i, l) s len same short =
      rw (e.1, short) (known, refl, rw i s, rw i len, rw l (omega (arith, same)))

  -- What is left to do once the transaction is stored.
  store-rest :
      (e : ℕ × BankTransaction) (v : World)
      → create_transaction (transaction_input env user_id m t w.clock) w ≡ (ok e, v)
      → store_transaction env user_id m t w ≡ (
          and_then
            (discover_account env user_id
              (account_number_of t)
              (infer_bank_name env m)
              (infer_account_type env m)
              true
              v)
            λ e.
              record_state_change (parsed_event env user_id m t)
              >> pure (
                  stored_stats (
                    discovered_account_exists user_id
                      (account_number_of t)
                      (infer_bank_name env m)
                      (infer_account_type env m)
                      v.db)))
  unfolding store_transaction
  store-rest e v h = rw h refl

  exists-run :
      (k : AccountType) (db : Db)
      → account_type_of (infer_account_type env m) ≡ some k
      → discovered_account_exists user_id
          (account_number_of t)
          (infer_bank_name env m)
          (infer_account_type env m)
          db
        ≡ any (is_account user_id (account_number_of t) (infer_bank_name env m) k) db.accounts
  unfolding discovered_account_exists
  exists-run k db h = rw h refl

  pub store_transaction-run :
      IsNumber (account_number_of t)
      → IsBank env (infer_bank_name env m)
      → is_some (get user_id w.db.users) ≡ true
      → 1 ≤ hundredths t.amount
      → hundredths t.amount < 1000000000000
      → text_len m.gmail_message_id ≤ 64
      → IsStoring user_id m.gmail_message_id w (store_transaction env user_id m t w)
  unfolding is_stored
  store_transaction-run n b u low high len =
      let (d, e) = inferred_direction env m in
      let (k, f) = inferred_type env m in
      let number = account_number_of t in
      let bank = infer_bank_name env m in
      let v = after_creation d k in
      let created =
        creation-run (transaction_input env user_id m t w.clock) (row env user_id m t w.clock d k) w
          (build-run env user_id m t w.clock d k e f)
          (row_clean env user_id m t w.clock w.db d k n b u low high (omega arith)) in
      let found = discovery-run env user_id number bank (infer_account_type env m) k v f n b u in
      rw (store-rest _ v created, exists-run k v.db f)
        (after_discovery v (any (is_account user_id number bank k) w.db.accounts)
          (discover_account env user_id number bank (infer_account_type env m) true v) found
          (row_stored env user_id m t w.clock d k w.seq.transaction w.db.transactions)
          (length-insert w.seq.transaction _ w.db.transactions) refl (ground (arith, len)))
