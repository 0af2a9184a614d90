-- ===== src/Notifications/Deduplication.antt =====
-- A message with a key is stored once, however often its task is delivered
-- (src/apps/notifications/services/notification_service.py).
use nance_peer_lend_borrow_p.Prelude.{
  ℕ, ◌≡◌, refl, String, true, false, ◌&&◌, some, [], ◌∷◌, ◌++◌, arith, ◌==◌, str_eq, eq_refl,
}
use nance_peer_lend_borrow_p.Prelude.Text.{is_empty, strip}
use nance_peer_lend_borrow_p.Platform.Table.{Table, insert}
use nance_peer_lend_borrow_p.Platform.Errors.{ok}
use nance_peer_lend_borrow_p.Platform.Rows.Notices.{Notification}
use nance_peer_lend_borrow_p.Platform.World.{World, record_state_change}
use nance_peer_lend_borrow_p.Platform.Post.{Post, Post-of_ok, Post-atomic, Post-or_else, Post-ok}
use nance_peer_lend_borrow_p.Notifications.{
  CreateNotification, create_notification, message_body, insert_new_notification,
  create_notification_row, newest_duplicate, find_duplicate, new_notification,
}

newest-insert :
    (user_id : ℕ) (key : String) (id : ℕ) (n : Notification) (ns : Table Notification)
    → (n.user_id == user_id && str_eq n.dedupe_key key) ≡ true
    → newest_duplicate user_id key (insert id n ns) ≡ some (id, n)
unfolding newest_duplicate
newest-insert user_id key id n [] h = ground (arith, h)
newest-insert user_id key id n ((j, m) ∷ ns) h = rw (newest-insert user_id key id n ns h) refl

module _ (a : CreateNotification) (w : World) where
  insert-found :
      is_empty (strip a.dedupe_key) ≡ false
      → (r : ℕ × Notification) → (insert_new_notification a w).0 ≡ ok r
      → find_duplicate a.user_id
          (strip a.dedupe_key)
          (insert_new_notification a w).1.db.notifications
        ≡ some r
  unfolding insert_new_notification create_notification_row record_state_change
  insert-found k r e = ground (
    arith,
    k,
    e,
    eq_refl (strip a.dedupe_key),
    newest-insert a.user_id (strip a.dedupe_key) w.seq.notification (new_notification a w.clock)
        w.db.notifications,
  )

module _ (a : CreateNotification) (w : World) where
  -- The message is found, and no hook waits.
  abbrev Found : ℕ × Notification → World → Type 0
  Found r v =
      (find_duplicate a.user_id (strip a.dedupe_key) v.db.notifications ≡ some r) × (v.hooks ≡ [])

  create_notification-Found :
      is_empty (strip a.dedupe_key) ≡ false → Post Found (create_notification a w)
  unfolding create_notification message_body
  create_notification-Found k = Post-atomic Found (message_body a) w (
      Post-or_else (λ r v. Found r (record v { hooks = []; published = v.hooks ++ v.published }))
        (find_duplicate a.user_id (strip a.dedupe_key) w.db.notifications)
        (insert_new_notification a) (record w { hooks = [] }) (λ r e. (e, refl))
        λ _.
          Post-of_ok (λ r v. Found r (record v { hooks = []; published = v.hooks ++ v.published }))
            (insert_new_notification a (record w { hooks = [] }))
            λ r e. (insert-found a (record w { hooks = [] }) k r e, refl))

  replay_create : (r : ℕ × Notification) → Found r w → create_notification a w ≡ (ok r, w)
  unfolding create_notification message_body
  replay_create r h = ground (arith, h)

-- A creation under a key that is not blank is idempotent: once it has succeeded, a creation for the same
-- user under the same key, whatever else it asks for and whenever it comes, returns the same message and
-- changes nothing.
pub create_notification_again :
    (a b : CreateNotification) (w w' : World) (r : ℕ × Notification) (t : ℕ)
    → is_empty (strip a.dedupe_key) ≡ false
    → b.user_id ≡ a.user_id
    → strip b.dedupe_key ≡ strip a.dedupe_key
    → create_notification a w ≡ (ok r, w')
    → create_notification b (record w' { clock = t }) ≡ (ok r, record w' { clock = t })
create_notification_again a b w w' r t k u d e =
    let f =
      Post-ok (Found a w) (create_notification a w) r w' (create_notification-Found a w k) e in
    replay_create b (record w' { clock = t }) r (rw (u, d) f.0, f.1)
