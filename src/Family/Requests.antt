-- ===== src/Family/Requests.antt =====
-- The requests to the family service (src/apps/family/services/family_service.py), in any order.
pub mod Members
pub mod Register
pub mod Guarantees
use nance_peer_lend_borrow_p.Prelude.{ℕ, ◌+◌, String, Bool, List, [], ◌∷◌}
use nance_peer_lend_borrow_p.Prelude.Text.{strip, text_len}
use nance_peer_lend_borrow_p.Platform.World.{World}
use nance_peer_lend_borrow_p.Family.Membership.{
  create_family, create_invitation, accept_invitation, reject_invitation, remove_member,
  founding_body, create_family_row, create_member_row,
}

pub data Request : Type 0 where
  founds : ℕ → String → Request
  invites : ℕ → ℕ → Request
  accepts : ℕ → ℕ → Request
  rejects : ℕ → ℕ → Request
  removes : ℕ → ℕ → Request
  elapses : ℕ → Request
  broker : Bool → Request

pub step : Request → World → World
step (founds owner_id name) w = (create_family owner_id name w).1
step (invites actor invited) w = (create_invitation actor invited w).1
step (accepts id actor) w = (accept_invitation id actor w).1
step (rejects id actor) w = (reject_invitation id actor w).1
step (removes actor removed) w = (remove_member actor removed w).1
step (elapses t) w = record w { clock = w.clock + t }
step (broker up) w = record w { broker_up = up }

pub run : List Request → World → World
unfolding step
run [] w = w
run (c ∷ cs) w = run cs (step c w)

-- Opens the requests, to evaluate them.
unfoldable pub family_requests : Unit {0}
unfolding run step create_family create_invitation accept_invitation reject_invitation remove_member
    founding_body create_family_row create_member_row strip text_len
family_requests = tt
