-- ===== src/Notifications.antt =====
-- src/apps/notifications/services/notification_service.py, notifications/models.py (`clean`) and
-- notifications/tasks.py: messages to users, and their dispatch.
pub mod Deduplication
use nance_peer_lend_borrow_p.Prelude.{
  ℕ, suc, ◌+◌, String, Bool, true, false, not, ◌&&◌, Option, none, some, [], ◌∷◌, ltb, leb, ◌==◌,
  str_eq, is_some, select, take, if◌then◌else◌,
}
use nance_peer_lend_borrow_p.Prelude.Text.{is_empty, strip, text_len}
use nance_peer_lend_borrow_p.Platform.Table.{Table, get, insert, update}
use nance_peer_lend_borrow_p.Platform.Errors.{ok, not_found, validation_error}
use nance_peer_lend_borrow_p.Platform.Rows.Notices.{
  Notification, NotificationChannel, in_app, NotificationStatus, pending, sent, failed, Value,
  Payload, EntityType, row_id,
}
use nance_peer_lend_borrow_p.Platform.World.{
  Db, Hook, Task, M, pure, raise, gets, when, or_else, ◌>>=◌, ◌>>◌, raise_if, write, atomic,
  on_commit, record_state_change,
}

abbrev pub status_eq : NotificationStatus → NotificationStatus → Bool
status_eq pending pending = true
status_eq sent sent = true
status_eq failed failed = true
status_eq _ _ = false

abbrev after_now : Option ℕ → ℕ → Bool
after_now none now = false
after_now (some t) now = ltb now t

-- `Notification.clean` finds no error.
pub notification_clean : ℕ → Notification → Bool
notification_clean now n =
    not (status_eq n.status sent && not (is_some n.sent_at))
    && not (status_eq n.status failed && is_empty (strip n.failed_reason))
    && not (not (status_eq n.status failed) && not (is_empty n.failed_reason))
    && not (after_now n.sent_at now)

-- Validators of the fields.
notification_fields_valid : Db → Notification → Bool
notification_fields_valid db n =
    is_some (get n.user_id db.users)
    && not (is_empty n.title)
    && leb (text_len n.title) 255
    && not (is_empty n.message)
    && not (is_empty n.notification_type)
    && leb (text_len n.notification_type) 50
    && leb (text_len n.dedupe_key) 255
    && leb (text_len n.failed_reason) 500

pub notification_full_clean : Db → ℕ → Notification → Bool
unfolding notification_fields_valid notification_clean
notification_full_clean db now n = notification_fields_valid db n && notification_clean now n

-- `Notification.save` of a row that exists
save_notification : ℕ → Notification → M (Unit {0})
save_notification id n = do
  w ← gets (λ w. w)
  raise_if (not (notification_full_clean w.db w.clock n)) validation_error
  write (λ db. record db { notifications = update id n db.notifications })

abbrev insert_notification : Notification → M ℕ
insert_notification n w =
    let id = w.seq.notification in
    (
      ok id,
      record w {
        db = record w.db { notifications = insert id n w.db.notifications };
        seq = record w.seq { notification = id + 1 };
      },
    )

create_notification_row : Notification → M ℕ
create_notification_row n = do
  w ← gets (λ w. w)
  raise_if (not (notification_full_clean w.db w.clock n)) validation_error
  insert_notification n

-- `filter(user_id=…, dedupe_key=…).order_by("-created_at").first()`: the newest such row.
pub newest_duplicate : ℕ → String → Table Notification → Option (ℕ × Notification)
newest_duplicate user_id key [] = none
newest_duplicate user_id key ((id, n) ∷ ns) = elim (newest_duplicate user_id key ns) [
  | some e ↦ some e
  | none ↦ if n.user_id == user_id && str_eq n.dedupe_key key then some (id, n) else none
]

abbrev find_duplicate : ℕ → String → Table Notification → Option (ℕ × Notification)
find_duplicate user_id key ns = if is_empty key then none else newest_duplicate user_id key ns

-- `_record_status_change`
record_status_change : ℕ → Notification → NotificationStatus → String → Payload → M (Unit {0})
record_status_change id n from action metadata = when (not (status_eq from n.status)) (
    record_state_change (record {
      entity_type = EntityType.notification;
      entity_id = row_id id;
      field_name = "status";
      from_state = Value.notification_status from;
      to_state = Value.notification_status n.status;
      actor_id = some n.user_id;
      metadata = ("action", Value.text action) ∷ metadata;
    }))

-- The arguments of `create_notification`.
pub record CreateNotification : Type 0 where
  pub user_id : ℕ
  pub channel : NotificationChannel
  pub title : String
  pub message : String
  pub notification_type : String
  pub dedupe_key : String
  pub payload : Payload
  pub scheduled_for : Option ℕ

abbrev pub new_notification : CreateNotification → ℕ → Notification
new_notification a now = record {
  user_id = a.user_id;
  channel = a.channel;
  status = pending;
  title = a.title;
  message = a.message;
  notification_type = a.notification_type;
  dedupe_key = strip a.dedupe_key;
  is_read = false;
  payload = a.payload;
  scheduled_for = a.scheduled_for;
  sent_at = none;
  failed_reason = "";
  created_at = now;
  updated_at = now;
}

insert_new_notification : CreateNotification → M (ℕ × Notification)
unfolding create_notification_row
insert_new_notification a = do
  now ← gets (λ w. w.clock)
  let n = new_notification a now
  id ← create_notification_row n
  record_state_change (record {
    entity_type = EntityType.notification;
    entity_id = row_id id;
    field_name = "status";
    from_state = Value.null;
    to_state = Value.notification_status n.status;
    actor_id = some n.user_id;
    metadata = ("action", Value.text "notification.create") ∷ [];
  })
  on_commit (Hook.notification_event id n "notification.created")
  on_commit (Hook.dispatch_pending 100)
  pure (id, n)

-- The body of `create_notification`, which runs in one transaction.
message_body : CreateNotification → M (ℕ × Notification)
unfolding insert_new_notification newest_duplicate
message_body a = do
  existing ← gets (λ w. find_duplicate a.user_id (strip a.dedupe_key) w.db.notifications)
  or_else existing (insert_new_notification a)

pub create_notification : CreateNotification → M (ℕ × Notification)
create_notification a = atomic (message_body a)

-- `_get_notification_for_update`
abbrev or_not_found : Option Notification → M Notification
or_not_found none = raise not_found
or_not_found (some n) = pure n

pub mark_sent : ℕ → M (ℕ × Notification)
unfolding save_notification record_status_change
mark_sent id = atomic do
  row ← gets (λ w. get id w.db.notifications)
  old ← or_not_found row
  now ← gets (λ w. w.clock)
  let n = record old { status = sent; sent_at = some now; failed_reason = ""; updated_at = now }
  save_notification id n
  record_status_change id n old.status "notification.mark_sent" []
  on_commit (Hook.notification_event id n "notification.sent")
  pure (id, n)

pub mark_failed : ℕ → String → M (ℕ × Notification)
unfolding save_notification record_status_change
mark_failed id failed_reason = atomic do
  row ← gets (λ w. get id w.db.notifications)
  old ← or_not_found row
  now ← gets (λ w. w.clock)
  let n = record old {
    status = failed;
    failed_reason = strip failed_reason;
    sent_at = none;
    updated_at = now;
  }
  save_notification id n
  record_status_change id n old.status "notification.mark_failed"
      (("failed_reason", Value.text n.failed_reason) ∷ [])
  on_commit (Hook.notification_event id n "notification.failed")
  pure (id, n)

-- The filters of `dispatch_pending_notifications`; rows stand in the order of `created_at`.
abbrev is_due : ℕ → ℕ × Notification → Bool
is_due now (_, n) = status_eq n.status pending && not (after_now n.scheduled_for now)

send_all : Table Notification → ℕ → M ℕ
unfolding mark_sent
send_all [] count = pure count
send_all ((id, _) ∷ ns) count = do mark_sent id; send_all ns (suc count)

pub dispatch_pending_notifications : ℕ → M ℕ
unfolding send_all
dispatch_pending_notifications limit = do
  due ← gets (λ w. take limit (select (is_due w.clock) w.db.notifications))
  send_all due 0

-- `queue_notification_task`: a worker takes a task from the queue.
pub queue_notification_task : Task → M ℕ
unfolding create_notification
queue_notification_task t = do
  (id, _) ← create_notification (record {
    user_id = t.user_id;
    channel = in_app;
    title = t.title;
    message = t.message;
    notification_type = t.notification_type;
    dedupe_key = t.dedupe_key;
    payload = t.payload;
    scheduled_for = none;
  })
  pure id

-- Opens the definitions of this file, to evaluate them.
unfoldable pub notifications : Unit {0}
unfolding create_notification message_body insert_new_notification create_notification_row
    newest_duplicate notification_full_clean notification_fields_valid notification_clean
    save_notification record_status_change mark_sent mark_failed send_all
    dispatch_pending_notifications queue_notification_task record_state_change strip text_len
notifications = tt
