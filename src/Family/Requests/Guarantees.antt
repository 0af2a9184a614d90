-- ===== src/Family/Requests/Guarantees.antt =====
-- What holds of the families after any requests, failed ones included
-- (src/apps/family/services/family_service.py).
use nance_peer_lend_borrow_p.Prelude.{List, [], ◌∷◌}
use nance_peer_lend_borrow_p.Platform.World.{World}
use nance_peer_lend_borrow_p.Family.Membership.{
  create_family, create_invitation, accept_invitation, reject_invitation, remove_member,
  founding_body, invitation_body, acceptance_body, rejection_body, removal_body,
}
use nance_peer_lend_borrow_p.Family.Requests.{
  Request, founds, invites, accepts, rejects, removes, elapses, broker, step, run,
}
use nance_peer_lend_borrow_p.Family.Requests.Members.{IsRegister}
use nance_peer_lend_borrow_p.Family.Requests.Register.{
  close-IsRegister, close-always, founding-seqs, invitation-seqs, acceptance-seqs, rejection-seqs,
  removal-seqs, founding-IsRegister, invitation-IsRegister, acceptance-IsRegister,
  rejection-IsRegister, removal-IsRegister,
}

step-IsRegister :
    (c : Request) (w : World) → IsRegister w.db w.seq → IsRegister (step c w).db (step c w).seq
unfolding step create_family create_invitation accept_invitation reject_invitation remove_member
step-IsRegister (founds owner_id name) w i =
    let v = record w { hooks = [] } in
    close-IsRegister w (founding_body owner_id name v) i (founding-seqs owner_id name v)
      (founding-IsRegister owner_id name v i)
step-IsRegister (invites actor invited) w i =
    let v = record w { hooks = [] } in
    close-always w (invitation_body actor invited v) i (invitation-seqs actor invited v)
      (invitation-IsRegister actor invited v i)
step-IsRegister (accepts id actor) w i =
    let v = record w { hooks = [] } in
    close-IsRegister w (acceptance_body id actor v) i (acceptance-seqs id actor v)
      (acceptance-IsRegister id actor v i)
step-IsRegister (rejects id actor) w i =
    let v = record w { hooks = [] } in
    close-always w (rejection_body id actor v) i (rejection-seqs id actor v)
      (rejection-IsRegister id actor v i)
step-IsRegister (removes actor removed) w i =
    let v = record w { hooks = [] } in
    close-IsRegister w (removal_body actor removed v) i (removal-seqs actor removed v)
      (removal-IsRegister actor removed v i)
step-IsRegister (elapses t) w i = i
step-IsRegister (broker up) w i = i

-- Where the register is in order before, it is so after any requests in any order: no user stands in a
-- family twice, and a user is a member exactly when the user owns the family or the newest ledger entry
-- about the user there says that the user was added.
pub run-IsRegister :
    (cs : List Request) (w : World)
    → IsRegister w.db w.seq
    → IsRegister (run cs w).db (run cs w).seq
unfolding run
run-IsRegister [] w i = i
run-IsRegister (c ∷ cs) w i = run-IsRegister cs (step c w) (step-IsRegister c w i)
