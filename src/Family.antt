-- ===== src/Family.antt =====
-- Families (src/apps/family): membership, invitations, and who owes whom.
pub mod Access
pub mod Membership
pub mod Positions
pub mod Requests
