-- ===== src/Family/Access.antt =====
-- src/apps/family/services/family_service.py: which family a user belongs to, and the user's role in it.
use nance_peer_lend_borrow_p.Prelude.{
  ℕ, Bool, true, false, ◌&&◌, not, Option, none, some, ◌==◌, is_some, first, select, if◌then◌else◌,
}
use nance_peer_lend_borrow_p.Platform.Table.{Table, get}
use nance_peer_lend_borrow_p.Platform.Errors.{
  invalid_operation, not_found, no_family, not_manager, not_viewer, not_in_current_family,
  not_pending_invitation,
}
use nance_peer_lend_borrow_p.Platform.Rows.Family.{
  Family, FamilyMember, FamilyInvitation, FamilyMemberRole, owner, admin, member,
  FamilyInvitationStatus, pending, accepted, rejected,
}
use nance_peer_lend_borrow_p.Platform.World.{
  Db, M, pure, raise, gets, or_missing, ◌>>=◌, ◌>>◌, forbid,
}

abbrev pub has_user : ℕ → ℕ × FamilyMember → Bool
has_user user_id (_, m) = m.user_id == user_id

abbrev pub is_membership : ℕ → ℕ → ℕ × FamilyMember → Bool
is_membership family_id user_id (_, m) = m.family_id == family_id && m.user_id == user_id

abbrev pub is_owned_by : ℕ → ℕ × Family → Bool
is_owned_by user_id (_, f) = f.owner_id == user_id

-- `membership.family`
family_of : Option (ℕ × FamilyMember) → ℕ → M (Option (ℕ × Family))
family_of none user_id = gets (λ w. first (is_owned_by user_id) w.db.families)
family_of (some (_, m)) user_id = do
  row ← gets (λ w. get m.family_id w.db.families)
  f ← or_missing row
  pure (some (m.family_id, f))

unfoldable pub get_current_family_for_user : ℕ → M (Option (ℕ × Family))
unfolding family_of
get_current_family_for_user user_id = do
  membership ← gets (λ w. first (has_user user_id) w.db.members)
  family_of membership user_id

abbrev role_of : Option (ℕ × FamilyMember) → Option FamilyMemberRole
role_of none = none
role_of (some (_, m)) = some m.role

-- `_resolve_user_role`
unfoldable pub resolve_user_role : ℕ → Family → ℕ → Db → Option FamilyMemberRole
resolve_user_role family_id f user_id db =
    if f.owner_id == user_id
    then some owner
    else role_of (first (is_membership family_id user_id) db.members)

-- `role in {OWNER, ADMIN}`
abbrev pub can_manage : Option FamilyMemberRole → Bool
can_manage (some owner) = true
can_manage (some admin) = true
can_manage (some member) = false
can_manage none = false

-- `_ensure_actor_can_manage_members`
unfoldable pub ensure_actor_can_manage_members : ℕ → Family → ℕ → M (Unit {0})
unfolding resolve_user_role
ensure_actor_can_manage_members family_id f actor = do
  role ← gets (λ w. resolve_user_role family_id f actor w.db)
  forbid (not (can_manage role)) not_manager

-- `_ensure_actor_is_member`
unfoldable pub ensure_actor_is_member : ℕ → Family → ℕ → M (Unit {0})
unfolding resolve_user_role
ensure_actor_is_member family_id f actor = do
  role ← gets (λ w. resolve_user_role family_id f actor w.db)
  forbid (not (is_some role)) not_viewer

unfoldable pub lock_family : Option (ℕ × Family) → ℕ → M (ℕ × Family)
unfolding ensure_actor_can_manage_members
lock_family none actor = raise (invalid_operation no_family)
lock_family (some (id, _)) actor = do
  row ← gets (λ w. get id w.db.families)
  f ← or_missing row
  ensure_actor_can_manage_members id f actor
  pure (id, f)

unfoldable pub managed_family : Option (ℕ × Family) → ℕ → M (ℕ × Family)
unfolding get_current_family_for_user lock_family
managed_family (some owned) actor = pure owned
managed_family none actor = do
  current ← get_current_family_for_user actor
  lock_family current actor

-- `_get_actor_managed_family_for_update`
unfoldable pub get_actor_managed_family_for_update : ℕ → M (ℕ × Family)
unfolding managed_family
get_actor_managed_family_for_update actor = do
  owned ← gets (λ w. first (is_owned_by actor) w.db.families)
  managed_family owned actor

abbrev pub is_pending : FamilyInvitationStatus → Bool
is_pending pending = true
is_pending accepted = false
is_pending rejected = false

unfoldable pub pending_or_fail : Option FamilyInvitation → M FamilyInvitation
pending_or_fail none = raise not_found
pending_or_fail (some i) = do forbid (not (is_pending i.status)) not_pending_invitation; pure i

-- `_get_pending_invitation_for_update`
unfoldable pub get_pending_invitation_for_update : ℕ → M FamilyInvitation
unfolding pending_or_fail
get_pending_invitation_for_update id = do
  row ← gets (λ w. get id w.db.invitations)
  pending_or_fail row

-- `list_invitations_for_user`
pub list_invitations_for_user : ℕ → Db → Table FamilyInvitation
list_invitations_for_user user_id db =
    select (λ (e : ℕ × FamilyInvitation). e.1.invited_user_id == user_id && is_pending e.1.status)
      db.invitations

-- The dictionary of `get_current_family_context`; `none` for a user with no family.
pub record FamilyContext : Type 0 where
  pub family : ℕ × Family
  pub role : FamilyMemberRole
  pub can_manage_members : Bool
  pub members : Table FamilyMember

or_not_member : Option FamilyMemberRole → M FamilyMemberRole
or_not_member none = raise (invalid_operation not_in_current_family)
or_not_member (some r) = pure r

context_of : Option (ℕ × Family) → ℕ → M (Option FamilyContext)
unfolding resolve_user_role or_not_member
context_of none user_id = pure none
context_of (some (id, f)) user_id = do
  found ← gets (λ w. resolve_user_role id f user_id w.db)
  role ← or_not_member found
  members ← gets (λ w. select (λ (e : ℕ × FamilyMember). e.1.family_id == id) w.db.members)
  pure (
      some (record {
        family = (id, f);
        role = role;
        can_manage_members = can_manage (some role);
        members = members;
      }))

unfoldable pub get_current_family_context : ℕ → M (Option FamilyContext)
unfolding get_current_family_for_user context_of
get_current_family_context user_id = do
  family ← get_current_family_for_user user_id
  context_of family user_id
