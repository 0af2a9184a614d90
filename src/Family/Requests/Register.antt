-- ===== src/Family/Requests/Register.antt =====
-- The requests to the family service keep the register of members
-- (src/apps/family/services/family_service.py).
use nance_peer_lend_borrow_p.Prelude.{
  ℕ, ◌+◌, ◌≡◌, ◌≤◌, refl, String, false, Option, none, some, ◌∷◌, arith, ◌==◌, any, first,
}
use nance_peer_lend_borrow_p.Prelude.Text.{strip}
use nance_peer_lend_borrow_p.Platform.Table.{first-keyed, get, insert, update, delete, IsKeyed}
use nance_peer_lend_borrow_p.Platform.Errors.{Result, ok, err}
use nance_peer_lend_borrow_p.Platform.Rows.Family.{
  Family, FamilyMember, FamilyInvitation, FamilyLedgerEntry, owner, member, member_added,
  member_removed,
}
use nance_peer_lend_borrow_p.Platform.World.{World, close_transaction, queue_notification_on_commit}
use nance_peer_lend_borrow_p.Platform.Post.{Post, Post-raise_if, Post-of_ok, Post-bind}
use nance_peer_lend_borrow_p.Family.Access.{
  is_membership, is_owned_by, get_actor_managed_family_for_update, managed_family, lock_family,
  pending_or_fail, get_current_family_for_user, ensure_actor_can_manage_members,
  get_pending_invitation_for_update,
}
use nance_peer_lend_borrow_p.Family.Membership.{
  founding_body, invitation_body, acceptance_body, rejection_body, removal_body, end_membership,
  create_family_row, create_member_row, ledger_entry,
}
use nance_peer_lend_borrow_p.Family.Requests.Members.{
  IsRegister, mono, founds-IsRegister, joins-IsRegister, invites-IsRegister, leaves-IsRegister,
}

abbrev pub SeqsLe : World → World → Type 0
SeqsLe w v = (w.seq.member ≤ v.seq.member) × (w.seq.family ≤ v.seq.family)

module _ {A : Type 0} where
  pub close-IsRegister :
      (w : World) (r : Result A × World)
      → IsRegister w.db w.seq
      → SeqsLe w r.1
      → Post (λ _ v. IsRegister v.db v.seq) r
      → IsRegister (close_transaction w r).1.db (close_transaction w r).1.seq
  close-IsRegister w (ok a, v) i l p = p
  close-IsRegister w (err e, v) i l p = mono w.db w.seq v.seq l.0 l.1 i

  -- A body that keeps the register even where it fails.
  pub close-always :
      (w : World) (r : Result A × World)
      → IsRegister w.db w.seq
      → SeqsLe w r.1
      → IsRegister r.1.db r.1.seq
      → IsRegister (close_transaction w r).1.db (close_transaction w r).1.seq
  close-always w (ok a, v) i l p = p
  close-always w (err e, v) i l p = mono w.db w.seq v.seq l.0 l.1 i

managed-state : (actor : ℕ) (w : World) → (get_actor_managed_family_for_update actor w).1 ≡ w
unfolding get_actor_managed_family_for_update managed_family lock_family get_current_family_for_user
    ensure_actor_can_manage_members
managed-state actor w = ground arith

module _ (owner_id : ℕ) (name : String) (w : World) where
  pub founding-seqs : SeqsLe w (founding_body owner_id name w).1
  unfolding founding_body create_family_row create_member_row
  founding-seqs = ground arith

module _ (actor user_id : ℕ) (w : World) where
  pub invitation-seqs : SeqsLe w (invitation_body actor user_id w).1
  unfolding invitation_body queue_notification_on_commit
  invitation-seqs = ground (arith, managed-state actor w)

  pub acceptance-seqs : SeqsLe w (acceptance_body actor user_id w).1
  unfolding acceptance_body create_member_row queue_notification_on_commit
      get_pending_invitation_for_update pending_or_fail
  acceptance-seqs = ground arith

  pub rejection-seqs : SeqsLe w (rejection_body actor user_id w).1
  unfolding rejection_body queue_notification_on_commit get_pending_invitation_for_update
      pending_or_fail
  rejection-seqs = ground arith

  pub removal-seqs : SeqsLe w (removal_body actor user_id w).1
  unfolding removal_body end_membership queue_notification_on_commit
  removal-seqs = ground (arith, managed-state actor w)

module _ (owner_id : ℕ) (name : String) (w : World) where
  abbrev founded : Family
  founded = record { name = strip name; owner_id = owner_id; created_at = w.clock }

  abbrev first_member : FamilyMember
  first_member = record {
    family_id = w.seq.family;
    user_id = owner_id;
    role = owner;
    joined_at = w.clock;
  }

  founding-effect :
      (r : ℕ × Family)
      → (founding_body owner_id name w).0 ≡ ok r
      → (any (is_membership w.seq.family owner_id) w.db.members ≡ false)
        × ((founding_body owner_id name w).1.db ≡ record w.db {
          families = insert w.seq.family founded w.db.families;
          members = insert w.seq.member first_member w.db.members;
        })
        × ((founding_body owner_id name w).1.seq
            ≡ record w.seq { family = w.seq.family + 1; member = w.seq.member + 1 })
  unfolding founding_body create_family_row create_member_row
  founding-effect r e = ground arith

  pub founding-IsRegister :
      IsRegister w.db w.seq → Post (λ _ v. IsRegister v.db v.seq) (founding_body owner_id name w)
  founding-IsRegister i = Post-of_ok _ (founding_body owner_id name w) λ r e.
      let f = founding-effect r e in
      rw (f.1, f.2) (founds-IsRegister w.db w.seq founded first_member i f.0 refl refl)

module _ (id actor : ℕ) (w : World) where
  abbrev joined : ℕ → FamilyMember
  joined family_id = record {
    family_id = family_id;
    user_id = actor;
    role = member;
    joined_at = w.clock;
  }

  abbrev added_entry : ℕ → FamilyLedgerEntry
  added_entry family_id =
      ledger_entry family_id actor actor member_added "Invitation accepted; member added." w.clock

  acceptance-effect :
      (r : ℕ × FamilyInvitation)
      → (acceptance_body id actor w).0 ≡ ok r
      → (any (is_membership r.1.family_id actor) w.db.members ≡ false)
        × ((acceptance_body id actor w).1.db ≡ record w.db {
          members = insert w.seq.member (joined r.1.family_id) w.db.members;
          ledger = added_entry r.1.family_id ∷ w.db.ledger;
          invitations = update id r.1 w.db.invitations;
        })
        × ((acceptance_body id actor w).1.seq ≡ record w.seq { member = w.seq.member + 1 })
  unfolding acceptance_body create_member_row queue_notification_on_commit
      get_pending_invitation_for_update pending_or_fail
  acceptance-effect r e = ground arith

  pub acceptance-IsRegister :
      IsRegister w.db w.seq → Post (λ _ v. IsRegister v.db v.seq) (acceptance_body id actor w)
  acceptance-IsRegister i = Post-of_ok _ (acceptance_body id actor w) λ r e.
      let f = acceptance-effect r e in
      rw (f.1, f.2)
        (joins-IsRegister w.db w.seq (joined r.1.family_id) (added_entry r.1.family_id)
          (update id r.1 w.db.invitations) i f.0 refl refl refl)

  rejection-effect :
      ((rejection_body id actor w).1.db
        ≡ record w.db { invitations = (rejection_body id actor w).1.db.invitations })
      × ((rejection_body id actor w).1.seq ≡ w.seq)
  unfolding rejection_body queue_notification_on_commit get_pending_invitation_for_update
      pending_or_fail
  rejection-effect = ground arith

  pub rejection-IsRegister :
      IsRegister w.db w.seq
      → IsRegister (rejection_body id actor w).1.db (rejection_body id actor w).1.seq
  rejection-IsRegister i =
      let f = rejection-effect in rw (f.0, f.1) (invites-IsRegister w.db w.seq _ w.seq.invitation i)

module _ (actor user_id : ℕ) (w : World) where
  invitation-effect :
      ((invitation_body actor user_id w).1.db
        ≡ record w.db { invitations = (invitation_body actor user_id w).1.db.invitations })
      × ((invitation_body actor user_id w).1.seq
          ≡ record w.seq { invitation = (invitation_body actor user_id w).1.seq.invitation })
  unfolding invitation_body queue_notification_on_commit
  invitation-effect = ground (arith, managed-state actor w)

  managed-row :
      IsKeyed w.db.families
      → (r : ℕ × Family) → (get_actor_managed_family_for_update actor w).0 ≡ ok r
      → get r.0 w.db.families ≡ some r.1
  unfolding get_actor_managed_family_for_update managed_family lock_family
      get_current_family_for_user ensure_actor_can_manage_members
  managed-row k r e = ground (arith, e, first-keyed (is_owned_by actor) r.0 r.1 w.db.families k)

  end-effect :
      (f : ℕ) (g : Family) (id : ℕ) (m : FamilyMember)
      → ((end_membership f g actor user_id (some (id, m)) w).1.db ≡ record w.db {
        members = delete id w.db.members;
        ledger =
            ledger_entry f actor user_id member_removed "Family member removed." w.clock
            ∷ w.db.ledger;
      })
        × ((end_membership f g actor user_id (some (id, m)) w).1.seq ≡ w.seq)
  unfolding end_membership queue_notification_on_commit
  end-effect f g id m = ground arith

  end-IsRegister :
      (f : ℕ) (g : Family) (found : Option (ℕ × FamilyMember))
      → IsRegister w.db w.seq
      → get f w.db.families ≡ some g
      → (g.owner_id == user_id) ≡ false
      → first (is_membership f user_id) w.db.members ≡ found
      → Post (λ _ v. IsRegister v.db v.seq) (end_membership f g actor user_id found w)
  unfolding end_membership
  end-IsRegister f g none i h o k = tt
  end-IsRegister f g (some (id, m)) i h o k =
      Post-of_ok _ (end_membership f g actor user_id (some (id, m)) w) λ r e.
        let x = end-effect f g id m in
        rw (x.0, x.1)
          (leaves-IsRegister w.db w.seq f user_id id g m
            (ledger_entry f actor user_id member_removed "Family member removed." w.clock) i h o k
            refl refl refl)

  pub removal-IsRegister :
      IsRegister w.db w.seq → Post (λ _ v. IsRegister v.db v.seq) (removal_body actor user_id w)
  unfolding removal_body
  removal-IsRegister i =
      Post-bind (λ e v. (v ≡ w) × (get e.0 w.db.families ≡ some e.1)) (λ _ v. IsRegister v.db v.seq)
        (get_actor_managed_family_for_update actor) _ w
        (Post-of_ok (λ e v. (v ≡ w) × (get e.0 w.db.families ≡ some e.1))
          (get_actor_managed_family_for_update actor w)
          λ r e. (managed-state actor w, managed-row i.families_keyed r e))
        λ e v h. rw h.0 (
          Post-raise_if (λ _ v. IsRegister v.db v.seq) (e.1.owner_id == user_id) _ _ w
            λ o.
              end-IsRegister e.0 e.1 (first (is_membership e.0 user_id) w.db.members) i h.1 o refl)

  pub invitation-IsRegister :
      IsRegister w.db w.seq
      → IsRegister (invitation_body actor user_id w).1.db (invitation_body actor user_id w).1.seq
  invitation-IsRegister i =
      let f = invitation-effect in rw (f.0, f.1) (invites-IsRegister w.db w.seq _ _ i)
