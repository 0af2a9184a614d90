-- ===== src/Payments/Gmail/Ingestion/Discovery.antt =====
-- The creation of a mail's transaction and the discovery of its account, where they go through
-- (src/apps/payments/services/gmail_ingestion_service.py).
use nance_peer_lend_borrow_p.Prelude.{
  ℕ, ◌≡◌, ◌≤◌, ◌<◌, ◌+◌, refl, sym, ap, ◌∙◌, String, Bool, true, false, inl, inr, none, some, List,
  [], ◌∷◌, arith, Option-cases, if◌then◌else◌, is_some, first, any, length,
}
use nance_peer_lend_borrow_p.Prelude.Text.{is_empty, strip, text_len}
use nance_peer_lend_borrow_p.Platform.Table.{Table, get, insert, update}
use nance_peer_lend_borrow_p.Platform.Errors.{Result, ok}
use nance_peer_lend_borrow_p.Platform.Rows.Payments.{
  BankTransaction, DiscoveredAccount, AccountType, savings, current, TransactionDirection, debit,
  credit, gmail,
}
use nance_peer_lend_borrow_p.Platform.World.{Db, World, Env, close_transaction, record_state_change}
use nance_peer_lend_borrow_p.Payments.Records.{
  transaction_full_clean, transaction_fields_valid, create_transaction_row, create_account_row,
  account_full_clean, account_free, is_account, normalized,
}
use nance_peer_lend_borrow_p.Payments.Transactions.{
  CreateTransaction, build, creation_body, create_transaction, new_transaction, direction_of,
  account_type_of,
}
use nance_peer_lend_borrow_p.Payments.Accounts.{
  discover, discovery_body, discover_account, count_email, new_account,
}
use nance_peer_lend_borrow_p.Payments.Gmail.Parsers.{ParsedTransaction}
use nance_peer_lend_borrow_p.Payments.Gmail.Ingestion.{
  Mail, infer_account_type, infer_direction, infer_bank_name, transaction_input, account_number_of,
  hundredths,
}
use nance_peer_lend_borrow_p.Payments.Gmail.Ingestion.Names.{IsNumber, IsBank}

pub creation-run :
    (p : CreateTransaction) (t : BankTransaction) (w : World)
    → build w.clock p ≡ ok t
    → transaction_full_clean w.db t ≡ true
    → create_transaction p w ≡ (
      ok (w.seq.transaction, t),
      record w {
        db = record w.db { transactions = insert w.seq.transaction t w.db.transactions };
        seq = record w.seq { transaction = w.seq.transaction + 1 };
        hooks = [];
      },
    )
unfolding create_transaction creation_body create_transaction_row
creation-run p t w h k = rw (h, k) refl

two_types :
    (b : Bool) → (k : AccountType) × (account_type_of (if b then "current" else "savings") ≡ some k)
unfolding account_type_of
two_types true = (current, refl)
two_types false = (savings, refl)

two_directions :
    (b : Bool)
    → (d : TransactionDirection) × (direction_of (if b then "credit" else "debit") ≡ some d)
unfolding direction_of
two_directions true = (credit, refl)
two_directions false = (debit, refl)

pub inferred_type :
    (env : Env) (m : Mail)
    → (k : AccountType) × (account_type_of (infer_account_type env m) ≡ some k)
unfolding infer_account_type
inferred_type env m = two_types _

pub inferred_direction :
    (env : Env) (m : Mail)
    → (d : TransactionDirection) × (direction_of (infer_direction env m) ≡ some d)
unfolding infer_direction
inferred_direction env m = two_directions _

-- A text that has characters is not blank.
long_not_blank : (s : String) → 1 ≤ text_len s → is_empty s ≡ false
unfolding text_len
long_not_blank String.[] h = ground (arith, h)
long_not_blank (String.◌∷◌ c s) h = refl

-- The row of a mail's payment passes `full_clean`.
pub row_clean :
    (env : Env) (user_id : ℕ) (m : Mail) (t : ParsedTransaction) (now : ℕ) (db : Db)
    (d : TransactionDirection) (k : AccountType)
    → IsNumber (account_number_of t)
    → IsBank env (infer_bank_name env m)
    → is_some (get user_id db.users) ≡ true
    → 1 ≤ hundredths t.amount
    → hundredths t.amount < 1000000000000
    → text_len m.gmail_message_id ≤ 255
    → transaction_full_clean db
        (new_transaction (transaction_input env user_id m t now) d k gmail now)
      ≡ true
unfolding transaction_full_clean transaction_fields_valid
row_clean env user_id m t now db d k n b u low high len =
    let x = long_not_blank (account_number_of t) (omega (arith, n.1)) in
    let y = long_not_blank (infer_bank_name env m) (omega (arith, b.2)) in
    rw (x, y, n.0, b.1, u) (ground (arith, n.1, n.2, b.2, b.3, low, high, len))

module _ (env : Env) (user_id : ℕ) (number bank : String) (k : AccountType) (now : ℕ) where
  -- The account passes `full_clean` where the user has it not.
  account_clean :
      (db : Db)
      → IsNumber number
      → IsBank env bank
      → is_some (get user_id db.users) ≡ true
      → any (is_account user_id number bank k) db.accounts ≡ false
      → account_full_clean db none (normalized env (new_account user_id number bank k now)) ≡ true
  unfolding account_full_clean account_free
  account_clean db n b u h =
      let x = long_not_blank number (omega (arith, n.1)) in
      let y = long_not_blank bank (omega (arith, b.2)) in
      rw (n.0, b.1, b.0, x, y, u, n.0, b.1, h) (ground (arith, n.1, n.2, b.2, b.3))

pub length-insert :
    {A : Type 0} (n : ℕ) (a : A) (ts : Table A) → length (insert n a ts) ≡ length ts + 1
length-insert n a [] = omega arith
length-insert n a (t ∷ ts) = omega (arith, length-insert n a ts)

length-update : {A : Type 0} (n : ℕ) (a : A) (ts : Table A) → length (update n a ts) ≡ length ts
length-update n a [] = refl
length-update n a ((j, t) ∷ ts) = ground (arith, length-update n a ts)

any-first : {A : Type 0} (p : A → Bool) (xs : List A) → any p xs ≡ is_some (first p xs)
any-first p [] = refl
any-first p (x ∷ xs) = ground (arith, any-first p xs)

abbrev pub IsDiscovered : World → Bool → Result (ℕ × DiscoveredAccount) × World → Type 0
IsDiscovered v known (r, w) =
    ((e : ℕ × DiscoveredAccount) × (r ≡ ok e))
    × (w.db.transactions ≡ v.db.transactions)
    × (length w.db.accounts ≡ length v.db.accounts + (if known then 0 else 1))

-- The body with the account that is looked for.
body-run :
    (env : Env) (user_id : ℕ) (number bank kind number' bank' : String) (k : AccountType)
    (counts : Bool) (v : World)
    → account_type_of kind ≡ some k
    → strip number ≡ number'
    → env.upper (strip bank) ≡ bank'
    → discovery_body env user_id number bank kind counts v
      ≡ discover env
          (first (is_account user_id number' bank' k) v.db.accounts)
          (new_account user_id number' bank' k v.clock)
          counts
          v
unfolding discovery_body
body-run env user_id number bank kind number' bank' k counts v h n b = rw (h, sym n, sym b) refl

found-run :
    (env : Env) (e : ℕ × DiscoveredAccount) (a : DiscoveredAccount) (v w : World)
    → IsDiscovered v true (close_transaction w (discover env (some e) a true v))
unfolding discover count_email
found-run env (id, x) a v w = ((_, refl), refl, omega (arith, length-update id _ v.db.accounts))

created-run :
    (env : Env) (a : DiscoveredAccount) (v w : World)
    → account_full_clean v.db none (normalized env a) ≡ true
    → IsDiscovered v false (close_transaction w (discover env none a true v))
unfolding discover create_account_row record_state_change
created-run env a v w h = rw h ((_, refl), refl, length-insert v.seq.account _ v.db.accounts)

module _ (env : Env) (user_id : ℕ) (number bank kind : String) (k : AccountType) (v : World) where
  pub discovery-run :
      account_type_of kind ≡ some k
      → IsNumber number
      → IsBank env bank
      → is_some (get user_id v.db.users) ≡ true
      → IsDiscovered v
          (any (is_account user_id number bank k) v.db.accounts)
          (discover_account env user_id number bank kind true v)
  unfolding discover_account
  discovery-run h n b u =
      let w = record v { hooks = [] } in
      let p = is_account user_id number bank k in
      let body =
        body-run env user_id number bank kind number bank k true w h n.0 (ap env.upper b.1 ∙ b.0) in
      let new = new_account user_id number bank k v.clock in
      elim (Option-cases (first p v.db.accounts)) [
        | inl f ↦
            let a : any p v.db.accounts ≡ false = any-first p v.db.accounts ∙ ap is_some f in
            rw (body, f, a)
              (created-run env new w v
                (account_clean env user_id number bank k v.clock v.db n b u a))
        | inr (e, f) ↦
            let a : any p v.db.accounts ≡ true = any-first p v.db.accounts ∙ ap is_some f in
            rw (body, f, a) (found-run env e new w v)
      ]
