-- ===== src/Loans/LoanService/Replay.antt =====
-- Idempotency keys: a repeated request, a request under a used key, and what a failure leaves behind.
use nance_peer_lend_borrow_p.Prelude.{
  ap, ℕ, ◌+◌, ◌∙◌, ◌&&◌, ◌≡◌, refl, String, true, false, not, none, some, [], ◌∷◌, arith, ltb, ◌==◌,
  str_eq, eq_refl,
}
use nance_peer_lend_borrow_p.Prelude.Text.{is_empty, strip}
use nance_peer_lend_borrow_p.Platform.Table.{get, get-update}
use nance_peer_lend_borrow_p.Platform.Errors.{ok, err, invalid_operation, key_reused, broker_error}
use nance_peer_lend_borrow_p.Platform.Rows.Loans.{Loan, active, loan_status_eq}
use nance_peer_lend_borrow_p.Platform.World.{
  World, Env, CacheEntry, cache_get, is_truthy, queue_notification_on_commit, record_state_change,
}
use nance_peer_lend_borrow_p.Platform.Post.{
  Post, Post-missing, Post-raise_if, Post-if, Post-of_ok, Post-atomic, Post-bind, Post-ok,
  Post-weaken,
}
use nance_peer_lend_borrow_p.Loans.Validation.{save_loan, loan_full_clean}
use nance_peer_lend_borrow_p.Loans.LoanService.Helpers.{
  cache_key, idempotency_ttl, store_idempotent_result, record_status_change,
  resolve_idempotent_result,
}
use nance_peer_lend_borrow_p.Loans.LoanService.Refinement.{accepted}
use nance_peer_lend_borrow_p.Loans.LoanService.{
  accept_loan, accept_body, accept_locked, activate_loan, settle_request, accept_request,
  is_pending,
}

-- The key of an acceptance is used by another request.
module _ (env : Env) (loan_id user_id : ℕ) (key : String) (w : World) where
  -- A key that the cache holds for other request data is refused.
  accept_loan-key_reused :
      (e : CacheEntry)
      → is_empty (strip key) ≡ false
      → cache_get (cache_key "accept_loan" key) w.clock w.cache ≡ some e
      → str_eq e.fingerprint (env.digest (accept_request loan_id user_id)) ≡ false
      → accept_loan env loan_id user_id key w
        ≡ (err (invalid_operation key_reused), record w { hooks = [] })
  unfolding accept_loan accept_body resolve_idempotent_result
  accept_loan-key_reused e h c d = ground arith

  -- What an acceptance that is not a replay needs in order to go through.
  pub record IsAcceptable (old : Loan) : Type 0 where
    pub named : is_empty (strip key) ≡ false
    pub fresh : cache_get (cache_key "accept_loan" key) w.clock w.cache ≡ none
    pub stored : get loan_id w.db.loans ≡ some old
    pub borrower : old.borrower_id ≡ user_id
    pub waiting : is_pending old.status ≡ true
    pub valid : loan_full_clean env w.db (accepted env loan_id user_id key "" w old) ≡ true
    pub lender : is_truthy old.lender_id ≡ true

-- A cache and a table that answer a repeated request with the loan.
abbrev Remembers : String → String → String → ℕ → ℕ → ℕ × Loan → World → Type 0
Remembers action key fingerprint expires until r w =
    (is_empty (strip key) ≡ false)
    × (cache_get (cache_key action key) until w.cache
        ≡ some (record { loan_id = r.0; fingerprint = fingerprint; expires_at = expires }))
    × (get r.0 w.db.loans ≡ some r.1)

module _ (env : Env) (loan_id user_id : ℕ) (key fingerprint : String) (t : ℕ) (w : World)
    (old : Loan) where
  activate_loan-Remembers :
      ltb t (w.clock + idempotency_ttl) ≡ true
      → get loan_id w.db.loans ≡ some old
      → (r : ℕ × Loan) → (activate_loan env loan_id user_id key fingerprint old w).0 ≡ ok r
      → Remembers "accept_loan" key fingerprint
          (w.clock + idempotency_ttl)
          t
          r
          (activate_loan env loan_id user_id key fingerprint old w).1
  unfolding activate_loan save_loan record_status_change store_idempotent_result record_state_change
      queue_notification_on_commit
  activate_loan-Remembers b h r e = ground (
    arith,
    get-update loan_id loan_id (accepted env loan_id user_id key fingerprint w old) old w.db.loans
        h,
    eq_refl (cache_key "accept_loan" key),
  )

  settle_request-Remembers :
      (action : String)
      → ltb t (w.clock + idempotency_ttl) ≡ true
      → get loan_id w.db.loans ≡ some old
      → (r : ℕ × Loan) → (settle_request env action loan_id key fingerprint old w).0 ≡ ok r
      → Remembers action key fingerprint
          (w.clock + idempotency_ttl)
          t
          r
          (settle_request env action loan_id key fingerprint old w).1
  unfolding settle_request store_idempotent_result
  settle_request-Remembers action b h r e = ground (arith, eq_refl (cache_key action key))

module _ (env : Env) (loan_id user_id : ℕ) (key fingerprint : String) (t : ℕ) (w : World) where
  accept_locked-Remembers :
      ltb t (w.clock + idempotency_ttl) ≡ true
      → Post
          (Remembers "accept_loan" key fingerprint (w.clock + idempotency_ttl) t)
          (accept_locked env loan_id user_id key fingerprint w)
  unfolding accept_locked
  accept_locked-Remembers b = Post-missing _ (get loan_id w.db.loans) _ w λ old h.
      Post-raise_if _ (not (user_id == old.borrower_id)) _ _ w λ _.
        Post-if _ (loan_status_eq old.status active && old.borrower_id == user_id) _ _ w
          (λ _. Post-of_ok _ (settle_request env "accept_loan" loan_id key fingerprint old w) (
            settle_request-Remembers env loan_id user_id key fingerprint t w old "accept_loan" b h))
          (λ _.
            Post-of_ok _ (activate_loan env loan_id user_id key fingerprint old w)
              (activate_loan-Remembers env loan_id user_id key fingerprint t w old b h))

  resolve-fresh :
      (action : String)
      → cache_get (cache_key action key) w.clock w.cache ≡ none
      → Post (λ o v. (o ≡ none) × (v ≡ w)) (resolve_idempotent_result action key fingerprint w)
  unfolding resolve_idempotent_result
  resolve-fresh action f = ground arith

  resolve-Remembers :
      (action : String) (expires : ℕ) (r : ℕ × Loan)
      → Remembers action key fingerprint expires w.clock r w
      → resolve_idempotent_result action key fingerprint w ≡ (ok (some r), w)
  unfolding resolve_idempotent_result
  resolve-Remembers action expires r h = ground (arith, eq_refl fingerprint)

module _ (env : Env) (loan_id user_id : ℕ) (key : String) (t : ℕ) (w : World) where
  abbrev fingerprint : String
  fingerprint = env.digest (accept_request loan_id user_id)

  accept_loan-Remembers :
      ltb t (w.clock + idempotency_ttl) ≡ true
      → cache_get (cache_key "accept_loan" key) w.clock w.cache ≡ none
      → Post
          (λ r v.
            Remembers "accept_loan" key fingerprint (w.clock + idempotency_ttl) t r v
            × (v.hooks ≡ []))
          (accept_loan env loan_id user_id key w)
  unfolding accept_loan accept_body
  accept_loan-Remembers b f = Post-atomic _ (accept_body env loan_id user_id key) w (
      Post-bind (λ o v. (o ≡ none) × (v ≡ record w { hooks = [] })) _
        (resolve_idempotent_result "accept_loan" key fingerprint) _ (record w { hooks = [] })
        (resolve-fresh env loan_id user_id key fingerprint t (record w { hooks = [] }) "accept_loan"
          f)
        λ o v e.
          rw (e.0, e.1)
            (Post-weaken (Remembers "accept_loan" key fingerprint (w.clock + idempotency_ttl) t) _
              (accept_locked env loan_id user_id key fingerprint (record w { hooks = [] }))
              (accept_locked-Remembers env loan_id user_id key fingerprint t
                (record w { hooks = [] }) b)
              λ r x h. (h, refl)))

  replay_accept :
      (expires : ℕ) (r : ℕ × Loan)
      → Remembers "accept_loan" key fingerprint expires w.clock r w
      → w.hooks ≡ []
      → accept_loan env loan_id user_id key w ≡ (ok r, w)
  unfolding accept_loan accept_body
  replay_accept expires r h k = ground (
    arith,
    resolve-Remembers env loan_id user_id key fingerprint t (record w { hooks = [] }) "accept_loan"
        expires r h,
  )

-- An acceptance that has succeeded under a key that the cache did not hold is idempotent: repeated with
-- the same key at any time within a day, it returns the same loan again and changes nothing.
pub accept_loan_again :
    (env : Env) (loan_id user_id : ℕ) (key : String) (w w' : World) (r : ℕ × Loan) (t : ℕ)
    → cache_get (cache_key "accept_loan" key) w.clock w.cache ≡ none
    → accept_loan env loan_id user_id key w ≡ (ok r, w')
    → ltb t (w.clock + idempotency_ttl) ≡ true
    → accept_loan env loan_id user_id key (record w' { clock = t })
      ≡ (ok r, record w' { clock = t })
accept_loan_again env loan_id user_id key w w' r t f e b =
    let (h, k) =
      Post-ok _ (accept_loan env loan_id user_id key w) r w'
        (accept_loan-Remembers env loan_id user_id key t w b f) e in
    replay_accept env loan_id user_id key t (record w' { clock = t }) (w.clock + idempotency_ttl) r
      h k

-- A key belongs to the request that it first came with: where an acceptance has succeeded under a key that the
-- cache did not hold, an acceptance of another loan or by another user under the same key, at any time
-- within a day, is refused as a reuse of the key and changes nothing, if the digests of the two requests
-- differ.
pub accept_loan_other_request :
    (env : Env) (loan_id user_id : ℕ) (key : String) (w w' : World) (r : ℕ × Loan) (t : ℕ)
    (other_loan other_user : ℕ)
    → cache_get (cache_key "accept_loan" key) w.clock w.cache ≡ none
    → accept_loan env loan_id user_id key w ≡ (ok r, w')
    → ltb t (w.clock + idempotency_ttl) ≡ true
    → str_eq
        (env.digest (accept_request loan_id user_id))
        (env.digest (accept_request other_loan other_user))
      ≡ false
    → accept_loan env other_loan other_user key (record w' { clock = t })
      ≡ (err (invalid_operation key_reused), record w' { clock = t })
accept_loan_other_request env loan_id user_id key w w' r t other_loan other_user f e b d =
    let (h, k) =
      Post-ok _ (accept_loan env loan_id user_id key w) r w'
        (accept_loan-Remembers env loan_id user_id key t w b f) e in
    accept_loan-key_reused env other_loan other_user key (record w' { clock = t }) _ h.0 h.1 d
    ∙ rw k refl

module _ (env : Env) (loan_id user_id : ℕ) (key : String) (w : World) (old : Loan) where
  -- Where the queue cannot be reached, the key is stored before the acceptance fails.
  activate_loan-outage :
      (fingerprint : String) (v : World)
      → is_pending old.status ≡ true
      → loan_full_clean env v.db (accepted env loan_id user_id key fingerprint v old) ≡ true
      → is_empty (strip key) ≡ false
      → is_truthy old.lender_id ≡ true
      → v.broker_up ≡ false
      → ((activate_loan env loan_id user_id key fingerprint old v).0 ≡ err broker_error)
        × ((activate_loan env loan_id user_id key fingerprint old v).1.clock ≡ v.clock)
        × ((activate_loan env loan_id user_id key fingerprint old v).1.cache
            ≡ (
              cache_key "accept_loan" key,
              record {
                loan_id = loan_id;
                fingerprint = fingerprint;
                expires_at = v.clock + idempotency_ttl;
              },
            )
              ∷ v.cache)
  unfolding activate_loan save_loan record_status_change store_idempotent_result record_state_change
      queue_notification_on_commit
  activate_loan-outage fingerprint v p f n l down = ground arith

  accept_loan-outage :
      IsAcceptable env loan_id user_id key w old
      → w.broker_up ≡ false
      → ((accept_loan env loan_id user_id key w).0 ≡ err broker_error)
        × ((accept_loan env loan_id user_id key w).1.db ≡ w.db)
        × ((accept_loan env loan_id user_id key w).1.hooks ≡ [])
        × Remembers "accept_loan" key
            (env.digest (accept_request loan_id user_id))
            (w.clock + idempotency_ttl)
            (accept_loan env loan_id user_id key w).1.clock
            (loan_id, old)
            (record (accept_loan env loan_id user_id key w).1 { broker_up = true })
  unfolding accept_loan accept_body accept_locked resolve_idempotent_result
  accept_loan-outage a down = ground (
    arith,
    activate_loan-outage (env.digest (accept_request loan_id user_id)) (record w { hooks = [] })
        a.waiting a.valid a.named a.lender down,
    eq_refl (cache_key "accept_loan" key),
    a.named,
    a.fresh,
    a.stored,
    a.borrower,
    a.waiting,
  )

  -- The acceptance of a pending loan with a lender by its borrower, under a key that is not blank and not in
  -- the cache, fails while the queue cannot be reached, where the accepted row passes `full_clean`. The
  -- tables stay as they were, but the key is in the cache: repeated when the queue is back, the call
  -- returns the loan that was not accepted.
  pub accept_loan_broker_down :
      IsAcceptable env loan_id user_id key w old
      → w.broker_up ≡ false
      → ((accept_loan env loan_id user_id key w).0 ≡ err broker_error)
        × ((accept_loan env loan_id user_id key w).1.db ≡ w.db)
        × ((accept_loan env loan_id user_id key
              (record (accept_loan env loan_id user_id key w).1 { broker_up = true })).0
            ≡ ok (loan_id, old))
  accept_loan_broker_down a down =
      let o = accept_loan-outage a down in
      (
        o.0,
        o.1,
        ap (λ x. x.0)
            (replay_accept env loan_id user_id key w.clock
              (record (accept_loan env loan_id user_id key w).1 { broker_up = true })
              (w.clock + idempotency_ttl) (loan_id, old) o.3 o.2),
      )
