-- ===== src/Reminder/Row.antt =====
-- The rows of the tables `reminders` and `undelivered_reminders` (internal/store/db.go). A time is
-- the number of its seconds; `created_at`, which nothing reads, is left out.
use Prim.Native.String.{◌++◌}
use famclaw.Prelude.{ℕ, Bool, true, false, not, ◌&&◌, String, Option, if◌then◌else◌}
use famclaw.Prelude.Text.{str_eq}

-- `ReminderState*`
pub data DeliveryState : Type 0 where
  pending delivered undelivered undelivered_retry : DeliveryState

-- `Reason*`; `unset` is the column's default, the empty text.
pub data Reason : Type 0 where
  unset invalid_chat retries_exhausted counter_fault : Reason

pub record Reminder : Type 0 where
  pub id : ℕ
  pub user_name : String
  pub gateway : String
  pub external_id : String
  pub group_id : String
  pub is_group : Bool
  pub message : String
  pub due_at : ℕ
  pub dispatched : Bool
  pub dispatched_at : Option ℕ
  pub setter_gateway : String
  pub setter_external_id : String
  pub delivery_attempts : ℕ
  pub delivery_state : DeliveryState
  pub terminal_attempts : ℕ
  pub undelivered_reason : Reason

pub record UndeliveredReminder : Type 0 where
  pub reminder_id : ℕ
  pub user_name : String
  pub gateway : String
  pub chat_id : String
  pub message : String
  pub reason : Reason

abbrev pub is_pending : DeliveryState → Bool
is_pending pending = true
is_pending _ = false

abbrev pub is_undelivered_retry : DeliveryState → Bool
is_undelivered_retry undelivered_retry = true
is_undelivered_retry _ = false

abbrev pub is_undelivered : DeliveryState → Bool
is_undelivered undelivered = true
is_undelivered _ = false

abbrev pub is_delivered : DeliveryState → Bool
is_delivered delivered = true
is_delivered _ = false

-- The chat that a reminder goes to: the group for a group, or else the account.
unfoldable pub chat_id : Reminder → String
chat_id r = if r.is_group && not (str_eq r.group_id "") then r.group_id else r.external_id

unfoldable pub target_key : Reminder → String
target_key r = r.gateway ++ ("|" ++ chat_id r)
