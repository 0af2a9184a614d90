-- ===== src/Loans/Sockets.antt =====
-- src/apps/loans/consumers.py: a user's WebSocket, the groups of the channel layer that it joins.
-- The layer is the list of this channel's groups; a loan's number in a message is
-- a natural number, and 0 stands for a missing one.
pub mod Groups
use nance_peer_lend_borrow_p.Prelude.{
  ℕ, zero, suc, ◌-◌, ◌*◌, ◌^◌, Bool, true, false, not, ◌&&◌, ◌||◌, Option, none, some, List, [],
  ◌∷◌, ◌==◌, leb, any, select, if◌then◌else◌,
}

pub data Group : Type 0 where
  user_group loan_group : ℕ → Group

abbrev pub group_eq : Group → Group → Bool
group_eq (user_group a) (user_group b) = a == b
group_eq (loan_group a) (loan_group b) = a == b
group_eq _ _ = false

-- What the socket sends.
pub data Frame : Type 0 where
  closed connection_ack loan_id_required pong unsupported_action : Frame
  subscription_ack unsubscription_ack : ℕ → Frame

-- The messages that the socket is sent.
pub data Message : Type 0 where
  subscribe_loan unsubscribe_loan : ℕ → Message
  ping unknown : Message

pub record SocketUser : Type 0 where
  pub id : ℕ
  pub is_authenticated : Bool
  pub is_active : Bool

-- The consumer with the user whose group it has joined, and the channel's groups in the layer.
pub record Socket : Type 0 where
  pub joined_user : Option ℕ
  pub subscribed : List ℕ
  pub groups : List Group
  pub sent : List Frame

abbrev pub new_socket : Socket
new_socket = record { joined_user = none; subscribed = []; groups = []; sent = [] }

abbrev pub has_group : Group → List Group → Bool
has_group g gs = any (λ h. group_eq h g) gs

abbrev pub has_loan : ℕ → List ℕ → Bool
has_loan n ns = any (λ m. m == n) ns

-- `group_add` and `group_discard`
unfoldable pub group_add : Group → List Group → List Group
group_add g gs = if has_group g gs then gs else g ∷ gs

unfoldable pub group_discard : Group → List Group → List Group
group_discard g gs = select (λ h. not (group_eq h g)) gs

abbrev send : Frame → Socket → Socket
send f s = record s { sent = f ∷ s.sent }

unfoldable pub connect : Option SocketUser → Socket → Socket
unfolding group_add
connect none s = send closed s
connect (some u) s =
    if u.is_authenticated && u.is_active
    then send connection_ack (record s {
      joined_user = some u.id;
      subscribed = [];
      groups = group_add (user_group u.id) s.groups;
    })
    else send closed s

unfoldable pub subscribe_loan_group : ℕ → Socket → Socket
unfolding group_add
subscribe_loan_group n s =
    if has_loan n s.subscribed
    then s
    else record s { groups = group_add (loan_group n) s.groups; subscribed = n ∷ s.subscribed }

unfoldable pub unsubscribe_loan_group : ℕ → Socket → Socket
unfolding group_discard
unsubscribe_loan_group n s =
    if has_loan n s.subscribed
    then record s {
      groups = group_discard (loan_group n) s.groups;
      subscribed = select (λ m. not (m == n)) s.subscribed;
    }
    else s

unfoldable pub receive_json : Message → Socket → Socket
unfolding subscribe_loan_group unsubscribe_loan_group
receive_json (subscribe_loan n) s =
    if n == 0 then send loan_id_required s else send (subscription_ack n) (subscribe_loan_group n s)
receive_json (unsubscribe_loan n) s =
    if n == 0
    then send loan_id_required s
    else send (unsubscription_ack n) (unsubscribe_loan_group n s)
receive_json ping s = send pong s
receive_json unknown s = send unsupported_action s

unfoldable pub receive_all : List Message → Socket → Socket
unfolding receive_json
receive_all [] s = s
receive_all (m ∷ ms) s = receive_all ms (receive_json m s)

unfoldable pub discard_loans : List ℕ → List Group → List Group
unfolding group_discard
discard_loans [] gs = gs
discard_loans (n ∷ ns) gs = discard_loans ns (group_discard (loan_group n) gs)

abbrev discard_user : Option ℕ → List Group → List Group
discard_user none gs = gs
discard_user (some u) gs = group_discard (user_group u) gs

unfoldable pub disconnect : Socket → Socket
unfolding discard_loans
disconnect s = record s {
  groups = discard_loans s.subscribed (discard_user s.joined_user s.groups);
}
