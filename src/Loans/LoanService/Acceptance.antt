-- ===== src/Loans/LoanService/Acceptance.antt =====
-- From the request to the acceptance: what `create_loan` opens, `accept_loan` makes active.
use nance_peer_lend_borrow_p.Prelude.{
  ℕ, ◌==◌, ◌≤◌, ◌≡◌, refl, ap, ◌∙◌, Bool, String, true, false, Option, some, none, [], arith,
}
use nance_peer_lend_borrow_p.Prelude.Int.{pos, leb_ℤ}
use nance_peer_lend_borrow_p.Prelude.Text.{is_empty, strip}
use nance_peer_lend_borrow_p.Platform.Table.{get, insert, get-insert, get-update, get_next, Below}
use nance_peer_lend_borrow_p.Platform.Errors.{ok}
use nance_peer_lend_borrow_p.Platform.Rows.Loans.{Loan, LoanStatus, active}
use nance_peer_lend_borrow_p.Platform.World.{
  World, Env, cache_get, queue_notification_on_commit, record_state_change,
}
use nance_peer_lend_borrow_p.Platform.Post.{
  Post, Post-raise_if, Post-bind, Post-of_ok, Post-atomic, Post-ok,
}
use nance_peer_lend_borrow_p.Loans.Validation.{loan_full_clean, create_loan_row, save_loan}
use nance_peer_lend_borrow_p.Loans.Validation.Soundness.{
  loan_full_clean-users, loan_full_clean-active,
}
use nance_peer_lend_borrow_p.Loans.LoanService.Helpers.{
  cache_key, store_idempotent_result, record_status_change, resolve_idempotent_result,
  resolve_borrower, ensure_positive_amount, ensure_distinct_parties,
}
use nance_peer_lend_borrow_p.Loans.LoanService.Opening.{resolve-pending}
use nance_peer_lend_borrow_p.Loans.LoanService.Replay.{IsAcceptable}
use nance_peer_lend_borrow_p.Loans.LoanService.Refinement.{accepted}
use nance_peer_lend_borrow_p.Loans.LoanService.{
  CreateLoan, new_loan, create_request, insert_new_loan, create_body, create_loan, is_pending,
  accept_loan, accept_body, accept_locked, activate_loan,
}

-- The loan waits for its borrower since the given time.
abbrev IsOpened : Env → ℕ → ℕ → ℕ × Loan → World → Type 0
IsOpened env lender since (id, l) v =
    (get id v.db.loans ≡ some l)
    × (is_pending l.status ≡ true)
    × (loan_full_clean env v.db l ≡ true)
    × (l.submitted_at ≡ some since)
    × (l.disbursed_at ≡ none)
    × (l.lender_id ≡ some lender)

-- The row that its acceptance stores.
abbrev pub made_active : Loan → ℕ → Loan
made_active l t = record l {
  status = active;
  approved_at = some t;
  rejection_reason = "";
  updated_at = t;
}

module _ (env : Env) (a : CreateLoan) (id : ℕ) (told : Bool) (status : LoanStatus)
    (fingerprint : String) (w : World) where
  insert_new_loan-effect :
      (r : ℕ × Loan)
      → (insert_new_loan env a id told status fingerprint w).0 ≡ ok r
      → (r ≡ (w.seq.loan, new_loan a id status w.clock))
        × (loan_full_clean env w.db (new_loan a id status w.clock) ≡ true)
        × ((insert_new_loan env a id told status fingerprint w).1.db.loans
            ≡ insert w.seq.loan (new_loan a id status w.clock) w.db.loans)
        × ((insert_new_loan env a id told status fingerprint w).1.db.users ≡ w.db.users)
  unfolding insert_new_loan create_loan_row record_status_change store_idempotent_result
      record_state_change queue_notification_on_commit
  insert_new_loan-effect r h = ground arith

resolve-steady :
    (env : Env) (id : Option ℕ) (mobile : Option String) (w : World)
    → ((resolve_borrower env id mobile w).1.clock ≡ w.clock)
      × ((resolve_borrower env id mobile w).1.cache ≡ w.cache)
      × ((resolve_borrower env id mobile w).1.db.loans ≡ w.db.loans)
      × ((resolve_borrower env id mobile w).1.seq.loan ≡ w.seq.loan)
unfolding resolve_borrower
resolve-steady env none mobile w = ground arith
resolve-steady env (some id) mobile w = ground arith

module _ (env : Env) (a : CreateLoan) (id : ℕ) (told : Bool) (status : LoanStatus)
    (fingerprint : String) (w : World) where
  insert_new_loan-IsOpened :
      Below w.seq.loan w.db.loans
      → is_pending status ≡ true
      → Post (IsOpened env a.lender_id w.clock) (insert_new_loan env a id told status fingerprint w)
  insert_new_loan-IsOpened b p =
      Post-of_ok (IsOpened env a.lender_id w.clock)
        (insert_new_loan env a id told status fingerprint w)
        λ r e.
          let v = (insert_new_loan env a id told status fingerprint w).1 in
          let f = insert_new_loan-effect env a id told status fingerprint w r e in
          let found : get w.seq.loan v.db.loans ≡ some (new_loan a id status w.clock) =
            ap (get w.seq.loan) f.2
            ∙ (get-insert w.seq.loan w.seq.loan (new_loan a id status w.clock) w.db.loans
                  (get_next w.seq.loan w.db.loans b)
                ∙ ground arith) in
          rw f.0 (found, p, loan_full_clean-users env w.db v.db _ f.3 ∙ f.1, refl, refl, refl)

module _ (env : Env) (loan_id user_id : ℕ) (key : String) (w : World) (old : Loan) where
  -- An acceptance that is no replay, while the queue can be reached.
  accept_acceptable :
      IsAcceptable env loan_id user_id key w old
      → w.broker_up ≡ true
      → ((accept_loan env loan_id user_id key w).0
          ≡ ok (loan_id, accepted env loan_id user_id key "" w old))
        × (get loan_id (accept_loan env loan_id user_id key w).1.db.loans
            ≡ some (accepted env loan_id user_id key "" w old))
  unfolding accept_loan accept_body accept_locked activate_loan resolve_idempotent_result save_loan
      record_status_change store_idempotent_result record_state_change queue_notification_on_commit
  accept_acceptable a up = ground (
    arith,
    get-update loan_id loan_id (accepted env loan_id user_id key "" w old) old w.db.loans a.stored,
    a.named,
    a.fresh,
    a.stored,
    a.borrower,
    a.waiting,
    a.valid,
    a.lender,
  )

resolve-unused :
    (action key fingerprint : String) (w : World)
    → cache_get (cache_key action key) w.clock w.cache ≡ none
    → Post (λ o v. (o ≡ none) × (v ≡ w)) (resolve_idempotent_result action key fingerprint w)
unfolding resolve_idempotent_result
resolve-unused action key fingerprint w f = ground arith

create_body-IsOpened :
    (env : Env) (a : CreateLoan) (w : World)
    → Below w.seq.loan w.db.loans
    → cache_get (cache_key "create_loan" a.idempotency_key) w.clock w.cache ≡ none
    → Post (IsOpened env a.lender_id w.clock) (create_body env a w)
unfolding create_body ensure_positive_amount ensure_distinct_parties
create_body-IsOpened env a w b f =
    Post-raise_if (IsOpened env a.lender_id w.clock) (leb_ℤ a.principal_amount (pos 0)) _ _ w λ _.
      Post-bind
        (λ r v.
          (is_pending r.2 ≡ true)
          × (v.clock ≡ w.clock)
          × (v.cache ≡ w.cache)
          × (v.db.loans ≡ w.db.loans)
          × (v.seq.loan ≡ w.seq.loan))
        (IsOpened env a.lender_id w.clock)
        (resolve_borrower env a.borrower_id a.borrower_mobile_number) _ w
        (Post-of_ok _ (resolve_borrower env a.borrower_id a.borrower_mobile_number w) λ r e.
          let s = resolve-steady env a.borrower_id a.borrower_mobile_number w in
          (resolve-pending env a.borrower_id a.borrower_mobile_number w r e, s.0, s.1, s.2, s.3))
        λ r v s. Post-raise_if (IsOpened env a.lender_id w.clock) (r.0 == a.lender_id) _ _ v λ _.
          let fingerprint = env.digest (create_request env a r.0 r.1.mobile_number) in
          Post-bind (λ o u. (o ≡ none) × (u ≡ v)) (IsOpened env a.lender_id w.clock)
            (resolve_idempotent_result "create_loan" a.idempotency_key fingerprint) _ v
            (resolve-unused "create_loan" a.idempotency_key fingerprint v (rw (s.1, s.2) f))
            λ o u e.
              rw (e.0, e.1, ← s.1)
                (insert_new_loan-IsOpened env a r.0 r.1.is_active r.2 fingerprint v
                  (rw (s.3, s.4) b) s.0)

create_loan-IsOpened :
    (env : Env) (a : CreateLoan) (w : World)
    → Below w.seq.loan w.db.loans
    → cache_get (cache_key "create_loan" a.idempotency_key) w.clock w.cache ≡ none
    → Post (IsOpened env a.lender_id w.clock) (create_loan env a w)
unfolding create_loan
create_loan-IsOpened env a w b f =
    Post-atomic (IsOpened env a.lender_id w.clock) (create_body env a) w
      (create_body-IsOpened env a (record w { hooks = [] }) b f)

opened-IsAcceptable :
    (env : Env) (lender since id : ℕ) (l : Loan) (key : String) (w : World)
    → IsOpened env lender since (id, l) w
    → since ≤ w.clock
    → (lender == 0) ≡ false
    → is_empty (strip key) ≡ false
    → cache_get (cache_key "accept_loan" key) w.clock w.cache ≡ none
    → IsAcceptable env id l.borrower_id key w l
opened-IsAcceptable env lender since id l key w (stored, waiting, valid, asked, paid_out, lent) h n
      named fresh =
    record {
      named = named;
      fresh = fresh;
      stored = stored;
      borrower = refl;
      waiting = waiting;
      valid = loan_full_clean-active env w.db l since w.clock valid asked paid_out h;
      lender = rw (lent, n) refl;
    }

-- What is requested can be accepted: where `create_loan` has succeeded under a key that the cache did not hold, for a
-- lender whose key is not 0 and with all keys of loans below the sequence, the borrower of the new loan accepts it
-- at any later time at which the queue can be reached, under any key that is not blank and not in the cache
-- then. The call returns the loan as active, approved at that time, and this is the row that is stored.
pub create_loan_then_accept :
    (env : Env) (a : CreateLoan) (w w' : World) (id : ℕ) (l : Loan) (t : ℕ) (key : String)
    → Below w.seq.loan w.db.loans
    → cache_get (cache_key "create_loan" a.idempotency_key) w.clock w.cache ≡ none
    → create_loan env a w ≡ (ok (id, l), w')
    → (a.lender_id == 0) ≡ false
    → w.clock ≤ t
    → is_empty (strip key) ≡ false
    → cache_get (cache_key "accept_loan" key) t w'.cache ≡ none
    → ((accept_loan env id l.borrower_id key (record w' { clock = t; broker_up = true })).0
        ≡ ok (id, made_active l t))
      × (get id
            (accept_loan env id l.borrower_id key
              (record w' { clock = t; broker_up = true })).1.db.loans
          ≡ some (made_active l t))
create_loan_then_accept env a w w' id l t key b f e n h named fresh =
    let opened = Post-ok _ (create_loan env a w) (id, l) w' (create_loan-IsOpened env a w b f) e in
    let v = record w' { clock = t; broker_up = true } in
    accept_acceptable env id l.borrower_id key v l
      (opened-IsAcceptable env a.lender_id w.clock id l key v opened h n named fresh) refl
