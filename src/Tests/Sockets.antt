-- ===== src/Tests/Sockets.antt =====
-- A user subscribes to two loans and leaves one of them.
use nance_peer_lend_borrow_p.Prelude.{◌≡◌, refl, true, false, some, List, [], ◌∷◌}
use nance_peer_lend_borrow_p.Loans.Sockets.{
  Group, loan_group, user_group, Message, subscribe_loan, unsubscribe_loan, ping, SocketUser,
  new_socket, has_group, connect, receive_all, disconnect,
}
use nance_peer_lend_borrow_p.Loans.Sockets.Groups.{belongs, receive_all-groups}

abbrev ann : SocketUser
ann = record { id = 7; is_authenticated = true; is_active = true }

abbrev messages : List Message
messages = subscribe_loan 1 ∷ subscribe_loan 2 ∷ ping ∷ subscribe_loan 1 ∷ unsubscribe_loan 1 ∷ []

receive_all-groups_example :
    ((g : Group)
      → has_group g (receive_all messages (connect (some ann) new_socket)).groups
        ≡ belongs 7 (receive_all messages (connect (some ann) new_socket)).subscribed g)
    × ((g : Group)
        → has_group g (disconnect (receive_all messages (connect (some ann) new_socket))).groups
          ≡ false)
receive_all-groups_example = receive_all-groups ann messages refl refl

messages_run :
    (receive_all messages (connect (some ann) new_socket)).groups ≡ loan_group 2 ∷ user_group 7 ∷ []
unfolding receive_all connect
messages_run = refl
