-- ===== src/Family/Requests/Members.antt =====
-- Who is in a family, after any requests (src/apps/family/services/family_service.py).
use nance_peer_lend_borrow_p.Prelude.{
  ℕ, ◌+◌, ◌≡◌, ◌≤◌, refl, Bool, true, false, not, ◌&&◌, ◌||◌, Option, none, some, List, [], ◌∷◌,
  arith, ◌==◌, any, first, is_some, opt_eq, if◌then◌else◌,
}
use nance_peer_lend_borrow_p.Platform.Table.{
  Table, get, insert, delete, Below, IsKeyed, IsKeyed-insert, Below-insert, get_next, get-insert,
}
use nance_peer_lend_borrow_p.Platform.Rows.Family.{
  Family, FamilyMember, FamilyInvitation, FamilyLedgerEntry, FamilyLedgerAction, member_added,
  member_removed,
}
use nance_peer_lend_borrow_p.Platform.World.{Db, Sequences}
use nance_peer_lend_borrow_p.Family.Access.{is_membership}

-- No user stands in a family twice.
abbrev pub IsDistinct : Table FamilyMember → Type 0
IsDistinct [] = Unit
IsDistinct ((id, m) ∷ ms) = (any (is_membership m.family_id m.user_id) ms ≡ false) × IsDistinct ms

any-insert :
    (f u id : ℕ) (m : FamilyMember) (ms : Table FamilyMember)
    → any (is_membership f u) (insert id m ms)
      ≡ (any (is_membership f u) ms || (m.family_id == f && m.user_id == u))
any-insert f u id m [] = ground arith
any-insert f u id m ((j, n) ∷ ms) = ground (arith, any-insert f u id m ms)

IsDistinct-insert :
    (id : ℕ) (m : FamilyMember) (ms : Table FamilyMember)
    → any (is_membership m.family_id m.user_id) ms ≡ false
    → IsDistinct ms
    → IsDistinct (insert id m ms)
IsDistinct-insert id m [] n h = (refl, tt)
IsDistinct-insert id m ((j, k) ∷ ms) n h =
    ground (arith, n, h.0, IsDistinct-insert id m ms, h.1, any-insert k.family_id k.user_id id m ms)

any-delete :
    (f u id : ℕ) (ms : Table FamilyMember)
    → any (is_membership f u) ms ≡ false
    → any (is_membership f u) (delete id ms) ≡ false
any-delete f u id [] n = refl
any-delete f u id ((j, k) ∷ ms) n = ground (arith, n, any-delete f u id ms)

IsDistinct-delete : (id : ℕ) (ms : Table FamilyMember) → IsDistinct ms → IsDistinct (delete id ms)
IsDistinct-delete id [] h = tt
IsDistinct-delete id ((j, k) ∷ ms) h =
    ground
      (arith, h.0, h.1, IsDistinct-delete id ms h.1, any-delete k.family_id k.user_id id ms h.0)

first-get :
    (f u id : ℕ) (m : FamilyMember) (ms : Table FamilyMember)
    → first (is_membership f u) ms ≡ some (id, m)
    → is_some (get id ms) ≡ true
first-get f u id m [] e = cc
first-get f u id m ((j, k) ∷ ms) e = ground (arith, e, first-get f u id m ms)

same_membership :
    (f u g v : ℕ) (ms : Table FamilyMember)
    → (f == g && u == v) ≡ true
    → any (is_membership f u) ms ≡ any (is_membership g v) ms
same_membership f u g v [] h = refl
same_membership f u g v ((j, k) ∷ ms) h = ground (arith, h, same_membership f u g v ms h)

-- Where keys are distinct, the deletion of a found membership removes that one and no other.
delete_found :
    (f u g v id : ℕ) (m : FamilyMember) (ms : Table FamilyMember)
    → IsKeyed ms
    → IsDistinct ms
    → first (is_membership f u) ms ≡ some (id, m)
    → any (is_membership g v) (delete id ms)
      ≡ (any (is_membership g v) ms && not (f == g && u == v))
delete_found f u g v id m [] k h e = cc
delete_found f u g v id m ((j, n) ∷ ms) k h e = ground (
  arith,
  e,
  k.0,
  h.0,
  delete_found f u g v id m ms k.1 h.1,
  first-get f u id m ms,
  same_membership n.family_id n.user_id g v ms,
)

abbrev is_about : ℕ → ℕ → FamilyLedgerEntry → Bool
is_about f u e = e.family_id == f && opt_eq e.member_id (some u)

abbrev is_added : FamilyLedgerAction → Bool
is_added member_added = true
is_added member_removed = false

-- What the newest entry about a user in a family says; no entry says that the user is no member.
abbrev pub ledger_says : ℕ → ℕ → List FamilyLedgerEntry → Bool
ledger_says f u [] = false
ledger_says f u (e ∷ es) = if is_about f u e then is_added e.action else ledger_says f u es

abbrev owner_is : Option Family → ℕ → Bool
owner_is none u = false
owner_is (some g) u = g.owner_id == u

-- Who the families and the ledger say is a member: the owner, and who was added last.
abbrev pub is_told : ℕ → ℕ → Db → Bool
is_told f u d = owner_is (get f d.families) u || ledger_says f u d.ledger

pub record IsRegister (d : Db) (s : Sequences) : Type 0 where
  pub keyed : IsKeyed d.members
  pub below : Below s.member d.members
  pub distinct : IsDistinct d.members
  pub families_keyed : IsKeyed d.families
  pub families_below : Below s.family d.families
  pub told : (f u : ℕ) → any (is_membership f u) d.members ≡ is_told f u d

Below-weaken : {A : Type 0} (m n : ℕ) (t : Table A) → m ≤ n → Below m t → Below n t
Below-weaken m n [] h b = tt
Below-weaken m n ((i, c) ∷ t) h b = (omega arith, Below-weaken m n t h b.1)

get-delete-none :
    {A : Type 0} (k id : ℕ) (t : Table A) → get k t ≡ none → get k (delete id t) ≡ none
get-delete-none k id [] h = refl
get-delete-none k id ((j, a) ∷ t) h = ground (arith, h, get-delete-none k id t)

IsKeyed-delete : {A : Type 0} (id : ℕ) (t : Table A) → IsKeyed t → IsKeyed (delete id t)
IsKeyed-delete id [] h = tt
IsKeyed-delete id ((j, a) ∷ t) h =
    ground (arith, h.0, h.1, IsKeyed-delete id t h.1, get-delete-none j id t h.0)

Below-delete : {A : Type 0} (n id : ℕ) (t : Table A) → Below n t → Below n (delete id t)
Below-delete n id [] h = tt
Below-delete n id ((j, a) ∷ t) h = ground (arith, h.0, h.1, Below-delete n id t h.1)

-- A failed request leaves the tables, and may use up keys.
pub mono :
    (d : Db) (s t : Sequences)
    → s.member ≤ t.member
    → s.family ≤ t.family
    → IsRegister d s
    → IsRegister d t
mono d s t h k i = record {
  keyed = i.keyed;
  below = Below-weaken s.member t.member d.members h i.below;
  distinct = i.distinct;
  families_keyed = i.families_keyed;
  families_below = Below-weaken s.family t.family d.families k i.families_below;
  told = i.told;
}

-- Founding.
pub founds-IsRegister :
    (d : Db) (s : Sequences) (g : Family) (m : FamilyMember)
    → IsRegister d s
    → any (is_membership s.family g.owner_id) d.members ≡ false
    → m.family_id ≡ s.family
    → m.user_id ≡ g.owner_id
    → IsRegister
        (record d {
          families = insert s.family g d.families;
          members = insert s.member m d.members;
        })
        (record s { family = s.family + 1; member = s.member + 1 })
founds-IsRegister d s g m i n e k = record {
  keyed = IsKeyed-insert s.member m d.members (get_next s.member d.members i.below) i.keyed;
  below = Below-insert s.member m d.members i.below;
  distinct = IsDistinct-insert s.member m d.members (rw (e, k) n) i.distinct;
  families_keyed =
      IsKeyed-insert s.family g d.families (get_next s.family d.families i.families_below)
        i.families_keyed;
  families_below = Below-insert s.family g d.families i.families_below;
  told = λ f u. ground (
    arith,
    any-insert f u s.member m d.members,
    i.told f u,
    get-insert f s.family g d.families (get_next s.family d.families i.families_below),
    e,
    k,
    get_next s.family d.families i.families_below,
  );
}

-- The invitations do not matter.
pub invites-IsRegister :
    (d : Db) (s : Sequences) (is : Table FamilyInvitation) (n : ℕ)
    → IsRegister d s
    → IsRegister (record d { invitations = is }) (record s { invitation = n })
invites-IsRegister d s is n i = record {
  keyed = i.keyed;
  below = i.below;
  distinct = i.distinct;
  families_keyed = i.families_keyed;
  families_below = i.families_below;
  told = i.told;
}

-- An invited user joins.
pub joins-IsRegister :
    (d : Db) (s : Sequences) (m : FamilyMember) (e : FamilyLedgerEntry)
    (is : Table FamilyInvitation)
    → IsRegister d s
    → any (is_membership m.family_id m.user_id) d.members ≡ false
    → e.family_id ≡ m.family_id
    → e.member_id ≡ some m.user_id
    → e.action ≡ member_added
    → IsRegister
        (record d {
          members = insert s.member m d.members;
          ledger = e ∷ d.ledger;
          invitations = is;
        })
        (record s { member = s.member + 1 })
joins-IsRegister d s m e is i n ef em ea = record {
  keyed = IsKeyed-insert s.member m d.members (get_next s.member d.members i.below) i.keyed;
  below = Below-insert s.member m d.members i.below;
  distinct = IsDistinct-insert s.member m d.members n i.distinct;
  families_keyed = i.families_keyed;
  families_below = i.families_below;
  told = λ f u. ground (arith, any-insert f u s.member m d.members, i.told f u, ef, em, ea);
}

-- A member who is not the owner leaves.
pub leaves-IsRegister :
    (d : Db) (s : Sequences) (f u id : ℕ) (g : Family) (m : FamilyMember) (e : FamilyLedgerEntry)
    → IsRegister d s
    → get f d.families ≡ some g
    → (g.owner_id == u) ≡ false
    → first (is_membership f u) d.members ≡ some (id, m)
    → e.family_id ≡ f
    → e.member_id ≡ some u
    → e.action ≡ member_removed
    → IsRegister (record d { members = delete id d.members; ledger = e ∷ d.ledger }) s
leaves-IsRegister d s f u id g m e i h o k ef em ea = record {
  keyed = IsKeyed-delete id d.members i.keyed;
  below = Below-delete s.member id d.members i.below;
  distinct = IsDistinct-delete id d.members i.distinct;
  families_keyed = i.families_keyed;
  families_below = i.families_below;
  told = λ x y. ground (
    arith,
    delete_found f u x y id m d.members i.keyed i.distinct k,
    i.told x y,
    h,
    o,
    ef,
    em,
    ea,
  );
}
