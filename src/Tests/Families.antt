-- ===== src/Tests/Families.antt =====
-- A family is founded, a user joins it and is removed.
use nance_peer_lend_borrow_p.Prelude.{refl, List, [], ◌∷◌}
use nance_peer_lend_borrow_p.Family.Requests.{Request, founds, invites, accepts, removes, run}
use nance_peer_lend_borrow_p.Family.Requests.Members.{IsRegister}
use nance_peer_lend_borrow_p.Family.Requests.Guarantees.{run-IsRegister}
use nance_peer_lend_borrow_p.Tests.Sample.{empty}

empty-IsRegister : IsRegister empty.db empty.seq
empty-IsRegister = record {
  keyed = tt;
  below = tt;
  distinct = tt;
  families_keyed = tt;
  families_below = tt;
  told = λ f u. refl;
}

abbrev requests : List Request
requests = founds 1 "Family" ∷ invites 1 2 ∷ accepts 1 2 ∷ removes 1 2 ∷ []

run-IsRegister_example : IsRegister (run requests empty).db (run requests empty).seq
run-IsRegister_example = run-IsRegister requests empty empty-IsRegister
