-- ===== src/Tests/Messages.antt =====
-- A message whose task is delivered twice.
use nance_peer_lend_borrow_p.Prelude.{◌≡◌, refl, [], none}
use nance_peer_lend_borrow_p.Platform.Errors.{ok}
use nance_peer_lend_borrow_p.Platform.Rows.Notices.{NotificationChannel}
use nance_peer_lend_borrow_p.Platform.World.{World}
use nance_peer_lend_borrow_p.Notifications.{
  CreateNotification, create_notification, new_notification, notifications,
}
use nance_peer_lend_borrow_p.Notifications.Deduplication.{create_notification_again}
use nance_peer_lend_borrow_p.Tests.Sample.{empty}

abbrev message : CreateNotification
message = record {
  user_id = 1;
  channel = NotificationChannel.in_app;
  title = "Loan Accepted";
  message = "Your loan request has been accepted.";
  notification_type = "loan_accepted";
  dedupe_key = "loan-accepted:1";
  payload = [];
  scheduled_for = none;
}

abbrev told : World
told = (create_notification message empty).1

create_notification_again_example :
    create_notification
      (record message { title = "Again"; dedupe_key = " loan-accepted:1" })
      (record told { clock = 5000 })
    ≡ (ok (1, new_notification message 1000), record told { clock = 5000 })
unfolding notifications
create_notification_again_example =
    create_notification_again message
      (record message { title = "Again"; dedupe_key = " loan-accepted:1" }) empty told
      (1, new_notification message 1000) 5000 refl refl refl refl
