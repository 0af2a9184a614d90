-- ===== src/Loans/Sockets/Groups.antt =====
-- Which groups a WebSocket is in (src/apps/loans/consumers.py).
use nance_peer_lend_borrow_p.Prelude.{
  ℕ, ◌≡◌, refl, sym, ap, ◌∙◌, Bool, true, false, not, ◌&&◌, ◌||◌, inl, inr, some, List, [], ◌∷◌,
  arith, ◌==◌, select, Bool-cases,
}
use nance_peer_lend_borrow_p.Loans.Sockets.{
  Group, user_group, loan_group, group_eq, Message, subscribe_loan, unsubscribe_loan, ping, unknown,
  SocketUser, Socket, new_socket, has_group, has_loan, group_add, group_discard, connect,
  subscribe_loan_group, unsubscribe_loan_group, receive_json, receive_all, discard_loans,
  disconnect,
}

group_eq-same : (g h : Group) → group_eq g h ≡ true → g ≡ h
group_eq-same (user_group a) (user_group b) h = ap user_group (ground (arith, h))
group_eq-same (loan_group a) (loan_group b) h = ap loan_group (ground (arith, h))
group_eq-same (user_group a) (loan_group b) h = cc
group_eq-same (loan_group a) (user_group b) h = cc

group_eq_sym : (g h : Group) → group_eq g h ≡ group_eq h g
group_eq_sym (user_group a) (user_group b) = ground arith
group_eq_sym (loan_group a) (loan_group b) = ground arith
group_eq_sym (user_group a) (loan_group b) = refl
group_eq_sym (loan_group a) (user_group b) = refl

has-add :
    (g h : Group) (gs : List Group)
    → has_group g (group_add h gs) ≡ (has_group g gs || group_eq h g)
unfolding group_add
has-add g h gs = elim (Bool-cases (has_group h gs)) [
  | inl e ↦ elim (Bool-cases (group_eq h g)) [
    | inl k ↦
        let q = group_eq-same h g k in
        rw (e, k) (ground (arith, ap (λ x. has_group x gs) (sym q) ∙ e))
    | inr k ↦ rw (e, k) (ground arith)
  ]
  | inr e ↦ rw e (ground arith)
]

has-discard :
    (g h : Group) (gs : List Group)
    → has_group g (group_discard h gs) ≡ (has_group g gs && not (group_eq h g))
unfolding group_discard
has-discard g h [] = refl
has-discard g h (x ∷ gs) = elim (Bool-cases (group_eq x h)) [
  | inl e ↦ let q = group_eq-same x h e in rw (e, q) (ground (arith, has-discard g h gs))
  | inr e ↦ elim (Bool-cases (group_eq x g)) [
    | inl k ↦
        let q = group_eq-same x g k in
        rw (e, k) (ap not (sym (group_eq_sym h g ∙ (ap (λ y. group_eq y h) (sym q) ∙ e))))
    | inr k ↦ rw (e, k) (ground (arith, has-discard g h gs))
  ]
]

has-select :
    (n m : ℕ) (ns : List ℕ)
    → has_loan n (select (λ k. not (k == m)) ns) ≡ (has_loan n ns && not (m == n))
has-select n m [] = refl
has-select n m (x ∷ ns) = ground (arith, has-select n m ns)

-- The groups that the socket of a user with these subscriptions belongs to.
abbrev pub belongs : ℕ → List ℕ → Group → Bool
belongs u ns (user_group v) = u == v
belongs u ns (loan_group n) = has_loan n ns

abbrev pub IsJoined : ℕ → Socket → Type 0
IsJoined u s =
    (s.joined_user ≡ some u) × ((g : Group) → has_group g s.groups ≡ belongs u s.subscribed g)

subscribe-IsJoined : (u n : ℕ) (s : Socket) → IsJoined u s → IsJoined u (subscribe_loan_group n s)
unfolding subscribe_loan_group
subscribe-IsJoined u n s i = elim (Bool-cases (has_loan n s.subscribed)) [
  | inl e ↦ rw e i
  | inr e ↦ rw e (i.0, joins)
]
  where
    joins :
        (g : Group)
        → has_group g (group_add (loan_group n) s.groups) ≡ belongs u (n ∷ s.subscribed) g
    joins (user_group v) =
        has-add (user_group v) (loan_group n) s.groups ∙ ground (arith, i.1 (user_group v))
    joins (loan_group m) =
        has-add (loan_group m) (loan_group n) s.groups ∙ ground (arith, i.1 (loan_group m))

unsubscribe-IsJoined :
    (u n : ℕ) (s : Socket) → IsJoined u s → IsJoined u (unsubscribe_loan_group n s)
unfolding unsubscribe_loan_group
unsubscribe-IsJoined u n s i = elim (Bool-cases (has_loan n s.subscribed)) [
  | inr e ↦ rw e i
  | inl e ↦ rw e (i.0, leaves)
]
  where
    leaves :
        (g : Group)
        → has_group g (group_discard (loan_group n) s.groups)
          ≡ belongs u (select (λ m. not (m == n)) s.subscribed) g
    leaves (user_group v) =
        has-discard (user_group v) (loan_group n) s.groups ∙ ground (arith, i.1 (user_group v))
    leaves (loan_group m) =
        has-discard (loan_group m) (loan_group n) s.groups
        ∙ ground (arith, i.1 (loan_group m), has-select m n s.subscribed)

receive_json-IsJoined :
    (u : ℕ) (m : Message) (s : Socket) → IsJoined u s → IsJoined u (receive_json m s)
unfolding receive_json
receive_json-IsJoined u (subscribe_loan n) s i = elim (Bool-cases (n == 0)) [
  | inl e ↦ rw e i
  | inr e ↦ rw e (subscribe-IsJoined u n s i)
]
receive_json-IsJoined u (unsubscribe_loan n) s i = elim (Bool-cases (n == 0)) [
  | inl e ↦ rw e i
  | inr e ↦ rw e (unsubscribe-IsJoined u n s i)
]
receive_json-IsJoined u ping s i = i
receive_json-IsJoined u unknown s i = i

receive_all-IsJoined :
    (u : ℕ) (ms : List Message) (s : Socket) → IsJoined u s → IsJoined u (receive_all ms s)
unfolding receive_all
receive_all-IsJoined u [] s i = i
receive_all-IsJoined u (m ∷ ms) s i =
    receive_all-IsJoined u ms (receive_json m s) (receive_json-IsJoined u m s i)

discards-loan :
    (n : ℕ) (ns : List ℕ) (gs : List Group)
    → has_group (loan_group n) (discard_loans ns gs)
      ≡ (has_group (loan_group n) gs && not (has_loan n ns))
unfolding discard_loans
discards-loan n [] gs = ground arith
discards-loan n (m ∷ ns) gs =
    discards-loan n ns (group_discard (loan_group m) gs)
    ∙ ground (arith, has-discard (loan_group n) (loan_group m) gs)

discards-user :
    (v : ℕ) (ns : List ℕ) (gs : List Group)
    → has_group (user_group v) (discard_loans ns gs) ≡ has_group (user_group v) gs
unfolding discard_loans
discards-user v [] gs = refl
discards-user v (m ∷ ns) gs =
    discards-user v ns (group_discard (loan_group m) gs)
    ∙ ground (arith, has-discard (user_group v) (loan_group m) gs)

disconnect-leaves :
    (u : ℕ) (s : Socket) → IsJoined u s → (g : Group) → has_group g (disconnect s).groups ≡ false
unfolding disconnect
disconnect-leaves u s i (user_group v) = rw i.0 (
    discards-user v s.subscribed (group_discard (user_group u) s.groups)
    ∙ ground (arith, has-discard (user_group v) (user_group u) s.groups, i.1 (user_group v)))
disconnect-leaves u s i (loan_group n) = rw i.0 (
    discards-loan n s.subscribed (group_discard (user_group u) s.groups)
    ∙ ground (arith, has-discard (loan_group n) (user_group u) s.groups, i.1 (loan_group n)))

alone : (u : ℕ) (g : Group) → (group_eq (user_group u) g || false) ≡ belongs u [] g
alone u (user_group v) = ground arith
alone u (loan_group n) = refl

connected-IsJoined :
    (u : SocketUser)
    → u.is_authenticated ≡ true
    → u.is_active ≡ true
    → IsJoined u.id (connect (some u) new_socket)
unfolding connect group_add
connected-IsJoined u h k = rw (h, k) (refl, alone u.id)

-- A user who is signed in and active connects and sends messages: at any time the socket is in the user's group and
-- in those of the loans that it is subscribed to and in no other, and when it disconnects it leaves them all.
pub receive_all-groups :
    (u : SocketUser) (ms : List Message)
    → u.is_authenticated ≡ true
    → u.is_active ≡ true
    → ((g : Group)
        → has_group g (receive_all ms (connect (some u) new_socket)).groups
          ≡ belongs u.id (receive_all ms (connect (some u) new_socket)).subscribed g)
      × ((g : Group)
          → has_group g (disconnect (receive_all ms (connect (some u) new_socket))).groups ≡ false)
receive_all-groups u ms h k =
    let i = receive_all-IsJoined u.id ms (connect (some u) new_socket) (connected-IsJoined u h k) in
    (i.1, disconnect-leaves u.id (receive_all ms (connect (some u) new_socket)) i)
