-- ===== src/Family/Membership.antt =====
-- src/apps/family/services/family_service.py: founding a family, invitations, removal of members.
use nance_peer_lend_borrow_p.Prelude.{
  ℕ, ◌+◌, String, Bool, not, ◌&&◌, Option, none, some, [], ◌∷◌, ltb, ◌==◌, any, first, is_some,
}
use nance_peer_lend_borrow_p.Prelude.Int.{pos}
use nance_peer_lend_borrow_p.Prelude.Text.{is_empty, strip, show, text_append, text_len}
use nance_peer_lend_borrow_p.Platform.Table.{get, insert, update, delete}
use nance_peer_lend_borrow_p.Platform.Errors.{
  ok, invalid_operation, integrity_error, data_error, name_required, already_owner, self_invitation,
  no_such_user, already_member, already_invited, not_own_invitation, owner_not_removable,
  not_member,
}
use nance_peer_lend_borrow_p.Platform.Rows.Family.{
  Family, FamilyMember, FamilyInvitation, FamilyLedgerEntry, FamilyLedgerAction, owner, member,
  pending, accepted, rejected, member_added, member_removed,
}
use nance_peer_lend_borrow_p.Platform.Rows.Notices.{Value, Payload}
use nance_peer_lend_borrow_p.Platform.World.{
  M, pure, raise, gets, ◌>>=◌, ◌>>◌, raise_if, forbid, write, atomic, queue_notification_on_commit,
}
use nance_peer_lend_borrow_p.Family.Access.{
  is_membership, is_owned_by, is_pending, get_actor_managed_family_for_update,
  get_pending_invitation_for_update,
}

abbrev id_value : ℕ → Value
id_value n = Value.num (pos n)

-- `Family.objects.create`: the owner exists, and the name fits the column.
abbrev insert_family : Family → M ℕ
insert_family f w =
    let id = w.seq.family in
    (
      ok id,
      record w {
        db = record w.db { families = insert id f w.db.families };
        seq = record w.seq { family = id + 1 };
      },
    )

unfoldable pub create_family_row : Family → M ℕ
create_family_row f = do
  users ← gets (λ w. w.db.users)
  raise_if (ltb 255 (text_len f.name)) data_error
  raise_if (not (is_some (get f.owner_id users))) integrity_error
  insert_family f

abbrev insert_member : FamilyMember → M (Unit {0})
insert_member m w =
    let id = w.seq.member in
    (
      ok tt,
      record w {
        db = record w.db { members = insert id m w.db.members };
        seq = record w.seq { member = id + 1 };
      },
    )

-- `FamilyMember.objects.create`, under `family_member_unique_per_family`
unfoldable pub create_member_row : FamilyMember → M (Unit {0})
create_member_row m = do
  members ← gets (λ w. w.db.members)
  raise_if (any (is_membership m.family_id m.user_id) members) integrity_error
  insert_member m

-- The body of `create_family`, which runs in one transaction.
unfoldable pub founding_body : ℕ → String → M (ℕ × Family)
unfolding create_family_row create_member_row
founding_body owner_user_id name = do
  let normalized_name = strip name
  forbid (is_empty normalized_name) name_required
  families ← gets (λ w. w.db.families)
  forbid (any (is_owned_by owner_user_id) families) already_owner
  now ← gets (λ w. w.clock)
  let f : Family = record { name = normalized_name; owner_id = owner_user_id; created_at = now }
  id ← create_family_row f
  create_member_row
      (record { family_id = id; user_id = owner_user_id; role = owner; joined_at = now })
  pure (id, f)

unfoldable pub create_family : ℕ → String → M (ℕ × Family)
create_family owner_user_id name = atomic (founding_body owner_user_id name)

abbrev is_open_invitation : ℕ → ℕ → ℕ × FamilyInvitation → Bool
is_open_invitation family_id user_id (_, i) =
    i.family_id == family_id && i.invited_user_id == user_id && is_pending i.status

abbrev insert_invitation : FamilyInvitation → M ℕ
insert_invitation i w =
    let id = w.seq.invitation in
    (
      ok id,
      record w {
        db = record w.db { invitations = insert id i w.db.invitations };
        seq = record w.seq { invitation = id + 1 };
      },
    )

-- The body of `create_invitation`, which runs in one transaction.
unfoldable pub invitation_body : ℕ → ℕ → M (ℕ × FamilyInvitation)
invitation_body actor invited = do
  (family_id, f) ← get_actor_managed_family_for_update actor
  forbid (invited == actor) self_invitation
  db ← gets (λ w. w.db)
  forbid (not (is_some (get invited db.users))) no_such_user
  forbid (any (is_membership family_id invited) db.members) already_member
  forbid (any (is_open_invitation family_id invited) db.invitations) already_invited
  now ← gets (λ w. w.clock)
  let i : FamilyInvitation = record {
    family_id = family_id;
    invited_user_id = invited;
    invited_by_id = actor;
    status = pending;
    created_at = now;
    responded_at = none;
  }
  id ← insert_invitation i
  queue_notification_on_commit (some invited) "Family Invitation"
      (text_append "You have been invited to join family '" (text_append f.name "'."))
      "family_invitation_sent" (text_append "family-invitation:" (show id))
      (("family_id", id_value family_id)
        ∷ ("invitation_id", id_value id)
        ∷ ("invited_by_user_id", id_value actor)
        ∷ [])
  pure (id, i)

unfoldable pub create_invitation : ℕ → ℕ → M (ℕ × FamilyInvitation)
create_invitation actor invited = atomic (invitation_body actor invited)

-- A ledger entry about the member, with the amount 0.
abbrev pub ledger_entry : ℕ → ℕ → ℕ → FamilyLedgerAction → String → ℕ → FamilyLedgerEntry
ledger_entry family_id actor m action note now = record {
  family_id = family_id;
  actor_id = actor;
  member_id = some m;
  action = action;
  amount = pos 0;
  note = note;
  created_at = now;
}

abbrev write_ledger : FamilyLedgerEntry → M (Unit {0})
write_ledger e = write (λ db. record db { ledger = e ∷ db.ledger })

abbrev response_payload : ℕ → ℕ → ℕ → Payload
response_payload family_id id actor =
    ("family_id", id_value family_id)
    ∷ ("invitation_id", id_value id)
    ∷ ("user_id", id_value actor)
    ∷ []

-- The body of `accept_invitation`, which runs in one transaction.
unfoldable pub acceptance_body : ℕ → ℕ → M (ℕ × FamilyInvitation)
unfolding create_member_row
acceptance_body id actor = do
  old ← get_pending_invitation_for_update id
  forbid (not (old.invited_user_id == actor)) not_own_invitation
  members ← gets (λ w. w.db.members)
  forbid (any (is_membership old.family_id actor) members) already_member
  now ← gets (λ w. w.clock)
  create_member_row
      (record { family_id = old.family_id; user_id = actor; role = member; joined_at = now })
  write_ledger
      (ledger_entry old.family_id actor actor member_added "Invitation accepted; member added." now)
  let i = record old { status = accepted; responded_at = some now }
  write (λ db. record db { invitations = update id i db.invitations })
  queue_notification_on_commit (some i.invited_by_id) "Invitation Accepted"
      "Your family invitation was accepted." "family_invitation_accepted"
      (text_append "family-invitation-accepted:" (show id)) (response_payload i.family_id id actor)
  pure (id, i)

unfoldable pub accept_invitation : ℕ → ℕ → M (ℕ × FamilyInvitation)
accept_invitation id actor = atomic (acceptance_body id actor)

-- The body of `reject_invitation`, which runs in one transaction.
unfoldable pub rejection_body : ℕ → ℕ → M (ℕ × FamilyInvitation)
rejection_body id actor = do
  old ← get_pending_invitation_for_update id
  forbid (not (old.invited_user_id == actor)) not_own_invitation
  now ← gets (λ w. w.clock)
  let i = record old { status = rejected; responded_at = some now }
  write (λ db. record db { invitations = update id i db.invitations })
  queue_notification_on_commit (some i.invited_by_id) "Invitation Rejected"
      "Your family invitation was rejected." "family_invitation_rejected"
      (text_append "family-invitation-rejected:" (show id)) (response_payload i.family_id id actor)
  pure (id, i)

unfoldable pub reject_invitation : ℕ → ℕ → M (ℕ × FamilyInvitation)
reject_invitation id actor = atomic (rejection_body id actor)

-- The end of `remove_member`, for the membership that was found.
unfoldable pub end_membership : ℕ → Family → ℕ → ℕ → Option (ℕ × FamilyMember) → M (Unit {0})
end_membership family_id f actor removed none = raise (invalid_operation not_member)
end_membership family_id f actor removed (some (membership_id, _)) = do
  write (λ db. record db { members = delete membership_id db.members })
  now ← gets (λ w. w.clock)
  write_ledger (ledger_entry family_id actor removed member_removed "Family member removed." now)
  queue_notification_on_commit (some removed) "Removed From Family"
      (text_append "You were removed from family '" (text_append f.name "'."))
      "family_member_removed"
      (text_append "family-member-removed:"
        (text_append (show family_id) (text_append ":" (show removed))))
      (("family_id", id_value family_id) ∷ ("user_id", id_value removed) ∷ [])

-- The body of `remove_member`, which runs in one transaction.
unfoldable pub removal_body : ℕ → ℕ → M (Unit {0})
removal_body actor removed = do
  (family_id, f) ← get_actor_managed_family_for_update actor
  forbid (f.owner_id == removed) owner_not_removable
  found ← gets (λ w. first (is_membership family_id removed) w.db.members)
  end_membership family_id f actor removed found

unfoldable pub remove_member : ℕ → ℕ → M (Unit {0})
remove_member actor removed = atomic (removal_body actor removed)
