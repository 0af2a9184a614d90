-- ===== src/Family/Positions.antt =====
-- src/apps/family/services/family_service.py: `get_family_ledger`, and what the members of a family have
-- lent one another. Amounts stay numbers; the code returns their texts.
pub mod Conservation
use nance_peer_lend_borrow_p.Prelude.{
  ℕ, String, Bool, false, not, ◌&&◌, Option, none, some, List, [], ◌∷◌, ltb, ◌==◌, any, select, leb,
  if◌then◌else◌,
}
use nance_peer_lend_borrow_p.Prelude.Int.{ℤ, pos, ◌+ℤ◌, ◌-ℤ◌, ltb_ℤ, leb_ℤ}
use nance_peer_lend_borrow_p.Platform.Order.{order_by}
use nance_peer_lend_borrow_p.Platform.Table.{Table, get}
use nance_peer_lend_borrow_p.Platform.Errors.{invalid_operation, no_family}
use nance_peer_lend_borrow_p.Platform.Rows.Loans.{
  Loan, LoanStatus, draft, pending_invite, pending_review, rejected, cancelled, loan_status_eq,
  Repayment,
}
use nance_peer_lend_borrow_p.Platform.Rows.Family.{Family, FamilyMember, FamilyLedgerEntry}
use nance_peer_lend_borrow_p.Platform.World.{Db, M, pure, raise, gets, or_missing, ◌>>=◌, ◌>>◌}
use nance_peer_lend_borrow_p.Family.Access.{get_current_family_for_user, ensure_actor_is_member}

-- A number goes into a sorted list without repetition: `set.add`, read by `sorted`.
pub add_id : ℕ → List ℕ → List ℕ
add_id n [] = n ∷ []
add_id n (m ∷ ms) = if n == m then m ∷ ms else if ltb n m then n ∷ m ∷ ms else m ∷ add_id n ms

-- `member_ids`, before the owner
user_ids : ℕ → Table FamilyMember → List ℕ
unfolding add_id
user_ids family_id [] = []
user_ids family_id ((_, m) ∷ ms) =
    let rest = user_ids family_id ms in
    if m.family_id == family_id then add_id m.user_id rest else rest

pub member_ids : ℕ → Family → Db → List ℕ
unfolding user_ids add_id
member_ids family_id f db = add_id f.owner_id (user_ids family_id db.members)

pub record Position : Type 0 where
  pub user_id : ℕ
  pub mobile_number : String
  pub name : String
  pub total_lent : ℤ
  pub total_borrowed : ℤ
  pub net_position : ℤ

pub record Obligation : Type 0 where
  pub from_user_id : ℕ
  pub to_user_id : ℕ
  pub amount : ℤ
  pub loan_id : ℕ

-- `positions`, of the members whose users are known
initial_positions : List ℕ → Db → M (List Position)
initial_positions [] db = pure []
initial_positions (id ∷ ids) db = do
  u ← or_missing (get id db.users)
  rest ← initial_positions ids db
  pure (
      record {
        user_id = id;
        mobile_number = u.mobile_number;
        name = u.name;
        total_lent = pos 0;
        total_borrowed = pos 0;
        net_position = pos 0;
      }
      ∷ rest)

abbrev mem_id : ℕ → List ℕ → Bool
mem_id n ids = any (λ m. n == m) ids

-- The statuses that the query excludes.
abbrev is_excluded : LoanStatus → Bool
is_excluded s =
    any (loan_status_eq s) (draft ∷ pending_invite ∷ pending_review ∷ rejected ∷ cancelled ∷ [])

-- `sum(repayment.amount_paid for repayment in loan.repayments.all())`
pub paid_amount : ℕ → Table Repayment → ℤ
paid_amount loan_id [] = pos 0
paid_amount loan_id ((_, r) ∷ rs) =
    let rest = paid_amount loan_id rs in
    if r.loan_id == loan_id then r.amount_paid +ℤ rest else rest

-- `max(loan.principal_amount - paid_amount, 0)`
pub outstanding_of : ℕ → Loan → Table Repayment → ℤ
unfolding paid_amount
outstanding_of id l rs =
    let due = l.principal_amount -ℤ paid_amount id rs in if ltb_ℤ due (pos 0) then pos 0 else due

-- The filters of the query, by the lender.
lent_within : List ℕ → Option ℕ → Bool
lent_within ids none = false
lent_within ids (some u) = mem_id u ids

abbrev is_within : List ℕ → Loan → Bool
is_within ids l =
    mem_id l.borrower_id ids && lent_within ids l.lender_id && not (is_excluded l.status)

abbrev obligation : ℕ → Loan → ℕ → ℤ → Obligation
obligation id l lender amount = record {
  from_user_id = l.borrower_id;
  to_user_id = lender;
  amount = amount;
  loan_id = id;
}

abbrev prepend : ℕ → Loan → Option ℕ → ℤ → List Obligation → List Obligation
prepend id l none amount rest = rest
prepend id l (some lender) amount rest =
    if leb_ℤ amount (pos 0) then rest else obligation id l lender amount ∷ rest

-- `Meta.ordering` of `Loan`: the newest first
abbrev pub newer : Loan → Loan → Bool
newer l m = leb m.created_at l.created_at

-- `consolidated_obligations` of the loans, in their order
pub consolidated_obligations : List ℕ → Table Repayment → Table Loan → List Obligation
unfolding outstanding_of lent_within
consolidated_obligations ids rs [] = []
consolidated_obligations ids rs ((id, l) ∷ ls) =
    let rest = consolidated_obligations ids rs ls in
    if is_within ids l then prepend id l l.lender_id (outstanding_of id l rs) rest else rest

-- `positions[user]["total_lent"] += amount`
pub add_lent : ℕ → ℤ → List Position → List Position
add_lent u a [] = []
add_lent u a (p ∷ ps) =
    if p.user_id == u then record p { total_lent = p.total_lent +ℤ a } ∷ ps else p ∷ add_lent u a ps

pub add_borrowed : ℕ → ℤ → List Position → List Position
add_borrowed u a [] = []
add_borrowed u a (p ∷ ps) =
    if p.user_id == u
    then record p { total_borrowed = p.total_borrowed +ℤ a } ∷ ps
    else p ∷ add_borrowed u a ps

-- What the loop does with each obligation.
pub add_obligations : List Obligation → List Position → List Position
unfolding add_lent add_borrowed
add_obligations [] ps = ps
add_obligations (o ∷ os) ps =
    add_obligations os (add_borrowed o.from_user_id o.amount (add_lent o.to_user_id o.amount ps))

pub settle_positions : List Position → List Position
settle_positions [] = []
settle_positions (p ∷ ps) =
    record p { net_position = p.total_lent -ℤ p.total_borrowed } ∷ settle_positions ps

-- `_build_member_positions`
pub build_member_positions : ℕ → Family → M (List Position × List Obligation)
unfolding member_ids initial_positions consolidated_obligations add_obligations settle_positions
build_member_positions family_id f = do
  db ← gets (λ w. w.db)
  let ids = member_ids family_id f db
  start ← initial_positions ids db
  let obligations = consolidated_obligations ids db.repayments (order_by newer db.loans)
  pure (settle_positions (add_obligations obligations start), obligations)

pub record FamilyLedger : Type 0 where
  pub entries : List FamilyLedgerEntry
  pub total_amount : ℤ
  pub member_positions : List Position
  pub obligations : List Obligation

total : List FamilyLedgerEntry → ℤ
total [] = pos 0
total (e ∷ es) = e.amount +ℤ total es

family_or_fail : Option (ℕ × Family) → M (ℕ × Family)
family_or_fail none = raise (invalid_operation no_family)
family_or_fail (some e) = pure e

pub get_family_ledger : ℕ → M FamilyLedger
unfolding total family_or_fail
get_family_ledger actor = do
  current ← get_current_family_for_user actor
  (id, f) ← family_or_fail current
  ensure_actor_is_member id f actor
  entries ← gets (λ w. select (λ (e : FamilyLedgerEntry). e.family_id == id) w.db.ledger)
  (positions, obligations) ← build_member_positions id f
  pure (record {
    entries = entries;
    total_amount = total entries;
    member_positions = positions;
    obligations = obligations;
  })

-- Opens the definitions of this file, to evaluate them.
unfoldable pub positions : Unit {0}
unfolding get_family_ledger build_member_positions member_ids user_ids add_id initial_positions
    consolidated_obligations outstanding_of paid_amount lent_within add_obligations add_lent
    add_borrowed settle_positions total family_or_fail get_current_family_for_user
    ensure_actor_is_member
positions = tt
