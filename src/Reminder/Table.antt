-- ===== src/Reminder/Table.antt =====
-- The statements of internal/store/db.go on the tables of reminders.
use famclaw.Prelude.{
  ℕ, suc, ◌+◌, Bool, true, false, ◌&&◌, ◌||◌, Option, none, some, List, [], ◌∷◌, ◌==◌, leb,
  if◌then◌else◌,
}
use famclaw.Reminder.Row.{
  pending, delivered, undelivered, undelivered_retry, Reason, unset, Reminder, UndeliveredReminder,
  is_pending, is_undelivered_retry,
}
use famclaw.Reminder.State.{Env, Scheduler, called}

-- UPDATE reminders SET … WHERE id = ? AND …, the two together as `change` of a row.
unfoldable pub update : ℕ → (Reminder → Reminder) → List Reminder → List Reminder
update i change [] = []
update i change (r ∷ rows) = (if r.id == i then change r else r) ∷ update i change rows

-- A statement that writes the table `reminders`, and whether it succeeded.
unfoldable pub exec : Env → (List Reminder → List Reminder) → Scheduler → Scheduler × Bool
exec e write s =
    if e.db_ok s.calls
    then (record s { rows = write s.rows; calls = suc s.calls }, true)
    else (called s, false)

unfoldable pub set_delivered : ℕ → Reminder → Reminder
set_delivered now r =
    if is_pending r.delivery_state
    then record r { delivery_state = delivered; dispatched = true; dispatched_at = some now }
    else r

unfoldable pub mark_reminder_dispatched : Env → ℕ → ℕ → Scheduler → Scheduler × Bool
unfolding set_delivered
mark_reminder_dispatched e i now = exec e (update i (set_delivered now))

unfoldable pub set_undelivered : ℕ → Reason → Reminder → Reminder
set_undelivered now reason r =
    if is_pending r.delivery_state || is_undelivered_retry r.delivery_state
    then record r {
      delivery_state = undelivered;
      dispatched = true;
      dispatched_at = some now;
      undelivered_reason = reason;
    }
    else r

unfoldable pub mark_undelivered : Env → ℕ → ℕ → Reason → Scheduler → Scheduler × Bool
unfolding set_undelivered
mark_undelivered e i now reason = exec e (update i (set_undelivered now reason))

unfoldable pub set_undelivered_retry : Reason → Reminder → Reminder
set_undelivered_retry reason r =
    if is_pending r.delivery_state
    then record r {
      delivery_state = undelivered_retry;
      undelivered_reason = reason;
      terminal_attempts = r.terminal_attempts + 1;
    }
    else r

unfoldable pub begin_undelivered_retry : Env → ℕ → Reason → Scheduler → Scheduler × Bool
unfolding set_undelivered_retry
begin_undelivered_retry e i reason = exec e (update i (set_undelivered_retry reason))

unfoldable pub add_terminal_attempt : Reminder → Reminder
add_terminal_attempt r =
    if is_undelivered_retry r.delivery_state
    then record r { terminal_attempts = r.terminal_attempts + 1 }
    else r

unfoldable pub increment_terminal_attempt : Env → ℕ → Scheduler → Scheduler × Bool
unfolding add_terminal_attempt
increment_terminal_attempt e i = exec e (update i add_terminal_attempt)

unfoldable pub add_delivery_attempt : Reminder → Reminder
add_delivery_attempt r = record r { delivery_attempts = r.delivery_attempts + 1 }

-- SELECT … WHERE id = ?
unfoldable pub row? : ℕ → List Reminder → Option Reminder
row? i [] = none
row? i (r ∷ rows) = if r.id == i then some r else row? i rows

-- The attempts of the row that was read; no row is an error of `Scan`.
unfoldable pub read_attempts : Option Reminder → Option ℕ
read_attempts none = none
read_attempts (some r) = some r.delivery_attempts

-- Two statements, each of which can fail; `none` is an error.
unfoldable pub increment_delivery_attempt : Env → ℕ → Scheduler → Scheduler × Option ℕ
unfolding add_delivery_attempt read_attempts
increment_delivery_attempt e i s =
    let (s', written) = exec e (update i add_delivery_attempt) s in
    if written
    then (called s', if e.db_ok s'.calls then read_attempts (row? i s'.rows) else none)
    else (s', none)

-- INSERT INTO undelivered_reminders
unfoldable pub save_undelivered_reminder : Env → UndeliveredReminder → Scheduler → Scheduler × Bool
save_undelivered_reminder e u s =
    if e.db_ok s.calls
    then (record s { records = u ∷ s.records; calls = suc s.calls }, true)
    else (called s, false)

-- ORDER BY due_at ASC
unfoldable pub insert_due : Reminder → List Reminder → List Reminder
insert_due r [] = r ∷ []
insert_due r (q ∷ rows) = if leb r.due_at q.due_at then r ∷ (q ∷ rows) else q ∷ insert_due r rows

-- SELECT … WHERE … ORDER BY due_at ASC
unfoldable pub select_where : (Reminder → Bool) → List Reminder → List Reminder
unfolding insert_due
select_where test [] = []
select_where test (r ∷ rows) =
    let rest = select_where test rows in if test r then insert_due r rest else rest

-- A query: what it returns, and none if it fails.
unfoldable pub query : Env → (Reminder → Bool) → Scheduler → Scheduler × Option (List Reminder)
query e test s = (called s, if e.db_ok s.calls then some (select_where test s.rows) else none)

unfoldable pub get_due_reminders : Env → ℕ → Scheduler → Scheduler × Option (List Reminder)
get_due_reminders e now = query e (λ r. is_pending r.delivery_state && leb r.due_at now)

unfoldable pub get_pending_reminders : Env → Scheduler → Scheduler × Option (List Reminder)
get_pending_reminders e = query e (λ r. is_pending r.delivery_state)

unfoldable pub get_undelivered_retry_reminders :
    Env → Scheduler → Scheduler × Option (List Reminder)
get_undelivered_retry_reminders e = query e (λ r. is_undelivered_retry r.delivery_state)

-- INSERT INTO reminders; the defaults of the other columns, and an `id` that the database chooses.
unfoldable pub create_reminder : Env → ℕ → Reminder → Scheduler → Scheduler × Bool
create_reminder e fresh r = exec e (λ rows.
    record r {
      id = fresh;
      dispatched = false;
      dispatched_at = none;
      delivery_attempts = 0;
      delivery_state = pending;
      terminal_attempts = 0;
      undelivered_reason = unset;
    }
    ∷ rows)
