-- ===== src/Reminder/State.antt =====
-- What a reminder scheduler holds (struct Scheduler of internal/reminder/scheduler.go), the tables
-- that it works on, and what surrounds it.
use famclaw.Prelude.{ℕ, suc, Bool, false, ◌||◌, String, List, [], ◌∷◌, ◌==◌}
use famclaw.Prelude.Text.{str_eq}
use famclaw.Reminder.Row.{Reminder, UndeliveredReminder}

-- The outcome of a send: `Sender.Send` returned nil, an error that is `gateway.ErrInvalidChat`, or
-- another error.
pub data Delivery : Type 0 where
  sent chat_gone failed : Delivery

-- One call of `Sender.Send`.
pub record Send : Type 0 where
  pub reminder : ℕ
  pub target : String
  pub outcome : Delivery

-- What the scheduler does not decide. Each outcome may differ from call to call: it is given by the
-- number of the call.
pub record Env : Type 0 where
  -- the statement succeeds; one that fails changes nothing
  pub db_ok : ℕ → Bool
  pub send : ℕ → Delivery
  pub fallback_ok : ℕ → Bool
  -- the context is cancelled or `stopCh` is closed
  pub stopped : ℕ → Bool
  -- `RegisterSender` was called for the gateway
  pub registered : String → Bool
  -- `SetUndeliveredStore`, `SetFallback`
  pub has_undelivered_store : Bool
  pub has_fallback : Bool

pub record Scheduler : Type 0 where
  -- the tables `reminders` and `undelivered_reminders`
  pub rows : List Reminder
  pub records : List UndeliveredReminder
  -- the sends and the fallback notices so far, newest first
  pub sends : List Send
  pub notices : List ℕ
  -- the calls of the environment so far
  pub calls : ℕ
  pub failed_reminders : List ℕ
  pub invalid_targets : List String
  pub just_parked : List ℕ

abbrev pub mem : ℕ → List ℕ → Bool
mem i [] = false
mem i (j ∷ l) = i == j || mem i l

abbrev pub mem_text : String → List String → Bool
mem_text k [] = false
mem_text k (j ∷ l) = str_eq k j || mem_text k l

-- A new process over the tables that the last one left.
pub restart : Scheduler → Scheduler
restart s = record s { failed_reminders = []; invalid_targets = []; just_parked = [] }

abbrev pub called : Scheduler → Scheduler
called s = record s { calls = suc s.calls }
