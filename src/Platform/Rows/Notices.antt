-- ===== src/Platform/Rows/Notices.antt =====
-- src/apps/notifications/models.py, src/apps/audit/models.py, and the JSON values of their fields
use nance_peer_lend_borrow_p.Prelude.{ℕ, String, Bool, Option, List}
use nance_peer_lend_borrow_p.Prelude.Int.{ℤ}
use nance_peer_lend_borrow_p.Platform.Rows.Loans.{LoanStatus, RepaymentStatus}
use nance_peer_lend_borrow_p.Platform.Rows.Payments.{DiscoveredAccountStatus}

pub data NotificationChannel : Type 0 where
  in_app sms email : NotificationChannel

pub data NotificationStatus : Type 0 where
  pending sent failed : NotificationStatus

-- The values of a JSON object; a status stands for its text.
pub data Value : Type 0 where
  null : Value
  num : ℤ → Value
  text : String → Value
  loan_status : LoanStatus → Value
  repayment_status : RepaymentStatus → Value
  notification_status : NotificationStatus → Value
  account_status : DiscoveredAccountStatus → Value

abbrev pub Payload : Type 0
Payload = List (String × Value)

pub record Notification : Type 0 where
  pub user_id : ℕ
  pub channel : NotificationChannel
  pub status : NotificationStatus
  pub title : String
  pub message : String
  pub notification_type : String
  pub dedupe_key : String
  pub is_read : Bool
  pub payload : Payload
  pub scheduled_for : Option ℕ
  pub sent_at : Option ℕ
  pub failed_reason : String
  pub created_at : ℕ
  pub updated_at : ℕ

pub data EntityType : Type 0 where
  loan repayment notification discovered_account gmail_email : EntityType

-- `entity_id`: the key of a row, or the name of a Gmail message; the column holds its text.
pub data EntityId : Type 0 where
  row_id : ℕ → EntityId
  message_id : String → EntityId

pub record AuditEvent : Type 0 where
  pub entity_type : EntityType
  pub entity_id : EntityId
  pub field_name : String
  pub from_state : Value
  pub to_state : Value
  pub actor_id : Option ℕ
  pub metadata : Payload
