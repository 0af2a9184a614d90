-- ===== src/Family/Positions/Conservation.antt =====
-- The positions of a family add up: what is lent within it is what is borrowed within it.
use nance_peer_lend_borrow_p.Prelude.{ℕ, ◌≡◌, refl, true, ◌∙◌, List, [], ◌∷◌, All, arith}
use nance_peer_lend_borrow_p.Prelude.Int.{ℤ, pos, ◌+ℤ◌, ◌-ℤ◌, int_laws}
use nance_peer_lend_borrow_p.Platform.Order.{order_by}
use nance_peer_lend_borrow_p.Platform.Table.{Table}
use nance_peer_lend_borrow_p.Platform.Rows.Loans.{Loan, Repayment}
use nance_peer_lend_borrow_p.Platform.Rows.Family.{Family}
use nance_peer_lend_borrow_p.Platform.World.{Db, World}
use nance_peer_lend_borrow_p.Platform.Errors.{ok}
use nance_peer_lend_borrow_p.Platform.Post.{Post, Post-bind, Post-then, Post-ok}
use nance_peer_lend_borrow_p.Family.Access.{get_current_family_for_user, ensure_actor_is_member}
use nance_peer_lend_borrow_p.Family.Positions.{
  get_family_ledger, FamilyLedger, family_or_fail, Position, Obligation, initial_positions, mem_id,
  lent_within, consolidated_obligations, newer, add_lent, add_borrowed, add_obligations,
  settle_positions, build_member_positions, member_ids,
}

abbrev pub sum_lent : List Position → ℤ
sum_lent [] = pos 0
sum_lent (p ∷ ps) = p.total_lent +ℤ sum_lent ps

abbrev pub sum_borrowed : List Position → ℤ
sum_borrowed [] = pos 0
sum_borrowed (p ∷ ps) = p.total_borrowed +ℤ sum_borrowed ps

abbrev pub sum_net : List Position → ℤ
sum_net [] = pos 0
sum_net (p ∷ ps) = p.net_position +ℤ sum_net ps

abbrev pub sum_owed : List Obligation → ℤ
sum_owed [] = pos 0
sum_owed (o ∷ os) = o.amount +ℤ sum_owed os

abbrev pub ids_of : List Position → List ℕ
ids_of [] = []
ids_of (p ∷ ps) = p.user_id ∷ ids_of ps

-- Both parties of the obligation are among the users.
abbrev Between : List ℕ → Obligation → Type 0
Between ids o = (mem_id o.from_user_id ids ≡ true) × (mem_id o.to_user_id ids ≡ true)

ids_of-add_lent : (u : ℕ) (a : ℤ) (ps : List Position) → ids_of (add_lent u a ps) ≡ ids_of ps
unfolding add_lent
ids_of-add_lent u a [] = refl
ids_of-add_lent u a (p ∷ ps) = ground (arith, ids_of-add_lent u a ps)

ids_of-add_borrowed :
    (u : ℕ) (a : ℤ) (ps : List Position) → ids_of (add_borrowed u a ps) ≡ ids_of ps
unfolding add_borrowed
ids_of-add_borrowed u a [] = refl
ids_of-add_borrowed u a (p ∷ ps) = ground (arith, ids_of-add_borrowed u a ps)

sum_lent-add_lent :
    (u : ℕ) (a : ℤ) (ps : List Position)
    → mem_id u (ids_of ps) ≡ true
    → sum_lent (add_lent u a ps) ≡ sum_lent ps +ℤ a
unfolding add_lent
sum_lent-add_lent u a [] h = cc
sum_lent-add_lent u a (p ∷ ps) h = grind (int_laws, sum_lent-add_lent u a ps)

sum_borrowed-add_lent :
    (u : ℕ) (a : ℤ) (ps : List Position) → sum_borrowed (add_lent u a ps) ≡ sum_borrowed ps
unfolding add_lent
sum_borrowed-add_lent u a [] = refl
sum_borrowed-add_lent u a (p ∷ ps) = ground (arith, sum_borrowed-add_lent u a ps)

sum_borrowed-add_borrowed :
    (u : ℕ) (a : ℤ) (ps : List Position)
    → mem_id u (ids_of ps) ≡ true
    → sum_borrowed (add_borrowed u a ps) ≡ sum_borrowed ps +ℤ a
unfolding add_borrowed
sum_borrowed-add_borrowed u a [] h = cc
sum_borrowed-add_borrowed u a (p ∷ ps) h = grind (int_laws, sum_borrowed-add_borrowed u a ps)

sum_lent-add_borrowed :
    (u : ℕ) (a : ℤ) (ps : List Position) → sum_lent (add_borrowed u a ps) ≡ sum_lent ps
unfolding add_borrowed
sum_lent-add_borrowed u a [] = refl
sum_lent-add_borrowed u a (p ∷ ps) = ground (arith, sum_lent-add_borrowed u a ps)

-- Every obligation is counted once as lent and once as borrowed.
add_obligations_sums :
    (os : List Obligation) (ps : List Position)
    → All (Between (ids_of ps)) os
    → (sum_lent (add_obligations os ps) ≡ sum_lent ps +ℤ sum_owed os)
      × (sum_borrowed (add_obligations os ps) ≡ sum_borrowed ps +ℤ sum_owed os)
unfolding add_obligations
add_obligations_sums [] ps h = (omega int_laws, omega int_laws)
add_obligations_sums (o ∷ os) ps h =
    let ps₁ = add_lent o.to_user_id o.amount ps in
    let ps₂ = add_borrowed o.from_user_id o.amount ps₁ in
    let e₁ : ids_of ps₁ ≡ ids_of ps = ids_of-add_lent o.to_user_id o.amount ps in
    let e₂ : ids_of ps₂ ≡ ids_of ps = ids_of-add_borrowed o.from_user_id o.amount ps₁ ∙ e₁ in
    let rest = add_obligations_sums os ps₂ (rw e₂ h.1) in
    grind (
      int_laws,
      rest,
      sum_lent-add_borrowed o.from_user_id o.amount ps₁,
      sum_lent-add_lent o.to_user_id o.amount ps h.0.1,
      sum_borrowed-add_borrowed o.from_user_id o.amount ps₁ (rw e₁ h.0.0),
      sum_borrowed-add_lent o.to_user_id o.amount ps,
    )

consolidated-Between :
    (ids : List ℕ) (rs : Table Repayment) (ls : Table Loan)
    → All (Between ids) (consolidated_obligations ids rs ls)
unfolding consolidated_obligations lent_within
consolidated-Between ids rs [] = tt
consolidated-Between ids rs ((id, l) ∷ ls) = ground (arith, consolidated-Between ids rs ls)

-- The positions start at the given users, with nothing lent or borrowed.
abbrev StartsAt : List ℕ → List Position → Type 0
StartsAt ids ps = (ids_of ps ≡ ids) × (sum_lent ps ≡ pos 0) × (sum_borrowed ps ≡ pos 0)

zero_add : pos 0 +ℤ pos 0 ≡ pos 0
unfolding ◌+ℤ◌
zero_add = refl

initial-StartsAt :
    (ids : List ℕ) (db : Db) (w : World)
    → Post (λ ps _. StartsAt ids ps) (initial_positions ids db w)
unfolding initial_positions
initial-StartsAt [] db w = (refl, refl, refl)
initial-StartsAt (id ∷ ids) db w = ground (arith, initial-StartsAt ids db w, zero_add)

settle_sums :
    (ps : List Position)
    → (sum_lent (settle_positions ps) ≡ sum_lent ps)
      × (sum_borrowed (settle_positions ps) ≡ sum_borrowed ps)
      × (sum_net (settle_positions ps) ≡ sum_lent ps -ℤ sum_borrowed ps)
unfolding settle_positions
settle_sums [] = (refl, refl, omega int_laws)
settle_sums (p ∷ ps) = let ih = settle_sums ps in grind (int_laws, ih)

-- What a balanced answer is.
abbrev pub Balances : List Position → List Obligation → Type 0
Balances ps os =
    (sum_lent ps ≡ sum_owed os) × (sum_borrowed ps ≡ sum_owed os) × (sum_net ps ≡ pos 0)

build-Balances :
    (family_id : ℕ) (f : Family) (w : World)
    → Post (λ r _. Balances r.0 r.1) (build_member_positions family_id f w)
unfolding build_member_positions
build-Balances family_id f w =
    let ids = member_ids family_id f w.db in
    let os = consolidated_obligations ids w.db.repayments (order_by newer w.db.loans) in
    Post-bind (λ ps _. StartsAt ids ps) (λ r _. Balances r.0 r.1) (initial_positions ids w.db) _ w
      (initial-StartsAt ids w.db w)
      (λ ps w' s.
        let sums =
          add_obligations_sums os ps
            (rw s.0 (consolidated-Between ids w.db.repayments (order_by newer w.db.loans))) in
        grind (int_laws, sums, settle_sums (add_obligations os ps)))

get_family_ledger-Post :
    (actor : ℕ) (w : World)
    → Post (λ l _. Balances l.member_positions l.obligations) (get_family_ledger actor w)
unfolding get_family_ledger
get_family_ledger-Post actor w = Post-then _ (get_current_family_for_user actor) _ w λ found w₁.
    Post-then _ (family_or_fail found) _ w₁ λ (e : ℕ × Family) w₂.
      Post-then _ (ensure_actor_is_member e.0 e.1 actor) _ w₂ λ _ w₃.
        Post-bind _ _ (build_member_positions e.0 e.1) _ w₃ (build-Balances e.0 e.1 w₃) λ r _ h. h

-- The ledger of a family, where a user is given it: the positions of its members add up. The sum of all
-- that is lent and the sum of all that is borrowed are the sum of the obligations, and the net positions
-- cancel.
pub get_family_ledger-Balances :
    (actor : ℕ) (w w' : World) (l : FamilyLedger)
    → get_family_ledger actor w ≡ (ok l, w')
    → Balances l.member_positions l.obligations
get_family_ledger-Balances actor w w' l e =
    Post-ok (λ l _. Balances l.member_positions l.obligations) (get_family_ledger actor w) l w'
      (get_family_ledger-Post actor w) e
