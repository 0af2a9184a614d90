-- ===== src/Platform/Rows/Family.antt =====
-- src/apps/family/models.py
use nance_peer_lend_borrow_p.Prelude.{ℕ, String, Option}
use nance_peer_lend_borrow_p.Prelude.Int.{ℤ}

pub data FamilyMemberRole : Type 0 where
  owner admin member : FamilyMemberRole

pub data FamilyInvitationStatus : Type 0 where
  pending accepted rejected : FamilyInvitationStatus

pub data FamilyLedgerAction : Type 0 where
  member_added member_removed : FamilyLedgerAction

pub record Family : Type 0 where
  pub name : String
  pub owner_id : ℕ
  pub created_at : ℕ

pub record FamilyMember : Type 0 where
  pub family_id : ℕ
  pub user_id : ℕ
  pub role : FamilyMemberRole
  pub joined_at : ℕ

pub record FamilyInvitation : Type 0 where
  pub family_id : ℕ
  pub invited_user_id : ℕ
  pub invited_by_id : ℕ
  pub status : FamilyInvitationStatus
  pub created_at : ℕ
  pub responded_at : Option ℕ

pub record FamilyLedgerEntry : Type 0 where
  pub family_id : ℕ
  pub actor_id : ℕ
  pub member_id : Option ℕ
  pub action : FamilyLedgerAction
  pub amount : ℤ
  pub note : String
  pub created_at : ℕ
