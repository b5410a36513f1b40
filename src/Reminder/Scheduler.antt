-- ===== src/Reminder/Scheduler.antt =====
-- The delivery of reminders (internal/reminder/scheduler.go). Each method of the source takes the
-- state of the scheduler and returns the next; a log line changes nothing.
pub mod View
mod Closure
mod PassClosure
mod Calm
mod Settled
pub mod Select
mod Apart
mod Visit
pub mod Passes
pub mod Attempts
pub mod Truthful
pub mod Once
pub mod DeadTargets
use famclaw.Prelude.{
  ℕ, suc, ◌+◌, Bool, true, false, not, ◌||◌, Option, none, some, List, [], ◌∷◌, ltb, leb,
  if◌then◌else◌,
}
use famclaw.Reminder.Row.{
  Reason, invalid_chat, retries_exhausted, counter_fault, Reminder, UndeliveredReminder, chat_id,
  target_key,
}
use famclaw.Reminder.State.{
  Delivery, sent, chat_gone, failed, Send, Env, Scheduler, mem, mem_text, called,
}
use famclaw.Reminder.Table.{
  mark_reminder_dispatched, mark_undelivered, begin_undelivered_retry, increment_terminal_attempt,
  increment_delivery_attempt, save_undelivered_reminder, get_due_reminders, get_pending_reminders,
  get_undelivered_retry_reminders,
}

abbrev pub max_delivery_attempts : ℕ
max_delivery_attempts = 3

abbrev pub max_terminal_attempts : ℕ
max_terminal_attempts = 3

-- `Dispatcher.Dispatch`: without a sender for the gateway there is no call, and a plain error.
unfoldable pub dispatch : Env → Reminder → Scheduler → Scheduler × Delivery
dispatch e r s =
    if e.registered r.gateway
    then (
      record s {
        sends =
            record { reminder = r.id; target = target_key r; outcome = e.send s.calls } ∷ s.sends;
        calls = suc s.calls;
      },
      e.send s.calls,
    )
    else (s, failed)

unfoldable pub abandon_in_memory : Reminder → Scheduler → Scheduler
abandon_in_memory r s = record s { failed_reminders = r.id ∷ s.failed_reminders }

unfoldable pub record_undelivered : Env → Reminder → Reason → Scheduler → Scheduler × Bool
record_undelivered e r reason s =
    if e.has_undelivered_store
    then save_undelivered_reminder e
        (record {
          reminder_id = r.id;
          user_name = r.user_name;
          gateway = r.gateway;
          chat_id = chat_id r;
          message = r.message;
          reason = reason;
        })
        s
    else (s, false)

-- `recorded` only chooses the log line.
unfoldable pub finalize_undelivered : Env → Reminder → ℕ → Reason → Scheduler → Scheduler
finalize_undelivered e r now reason s =
    let (s', marked) = mark_undelivered e r.id now reason s in
    if marked then s' else abandon_in_memory r s'

unfoldable pub notify_fallback : Env → Reminder → Scheduler → Scheduler
notify_fallback e r s =
    if not e.has_fallback
    then s
    else if e.fallback_ok s.calls
    then record s { notices = r.id ∷ s.notices; calls = suc s.calls }
    else called s

-- The end of `handleUndeliverable`: park the reminder.
unfoldable pub park : Env → Reminder → Reason → Scheduler → Scheduler
park e r reason s =
    let (s', begun) = begin_undelivered_retry e r.id reason s in
    if begun then record s' { just_parked = r.id ∷ s'.just_parked } else abandon_in_memory r s'

unfoldable pub handle_undeliverable : Env → Reminder → ℕ → Reason → Scheduler → Scheduler
handle_undeliverable e r now reason s =
    let (s', recorded) = record_undelivered e r reason s in
    let t = notify_fallback e r s' in
    if recorded
    then finalize_undelivered e r now reason t
    else if not e.has_undelivered_store
    then finalize_undelivered e r now reason t
    else if leb max_terminal_attempts r.terminal_attempts
    then finalize_undelivered e r now reason t
    else park e r reason t

-- What follows `IncrementDeliveryAttempt`.
unfoldable pub after_failure : Env → Reminder → ℕ → Option ℕ → Scheduler → Scheduler
after_failure e r now none s = handle_undeliverable e r now counter_fault s
after_failure e r now (some attempts) s =
    if leb max_delivery_attempts attempts
    then handle_undeliverable e r now retries_exhausted s
    else s

-- What follows `Dispatch`, by its error.
unfoldable pub after_dispatch : Env → Reminder → ℕ → Delivery → Scheduler → Scheduler
after_dispatch e r now sent s =
    let (s', marked) = mark_reminder_dispatched e r.id now s in
    if marked then s' else abandon_in_memory r s'
after_dispatch e r now chat_gone s =
    handle_undeliverable e r now invalid_chat
      (record s { invalid_targets = target_key r ∷ s.invalid_targets })
after_dispatch e r now failed s =
    let (s', attempts) = increment_delivery_attempt e r.id s in after_failure e r now attempts s'

unfoldable pub dispatch_once : Env → Reminder → ℕ → Scheduler → Scheduler
dispatch_once e r now s =
    if mem r.id s.failed_reminders
    then s
    else if mem_text (target_key r) s.invalid_targets
    then handle_undeliverable e r now invalid_chat s
    else (let (s', outcome) = dispatch e r s in after_dispatch e r now outcome s')

unfoldable pub record_or_terminalize : Env → Reminder → ℕ → Reason → Scheduler → Scheduler
record_or_terminalize e r now reason s =
    let (s', recorded) = record_undelivered e r reason s in
    if recorded
    then finalize_undelivered e r now reason s'
    else if leb max_terminal_attempts r.terminal_attempts
    then finalize_undelivered e r now reason s'
    else (let (t, written) = increment_terminal_attempt e r.id s' in
        if written then t else abandon_in_memory r t)

-- The loop of `processDue`, and whether it came to its end.
unfoldable pub dispatch_due : Env → ℕ → List Reminder → Scheduler → Scheduler × Bool
dispatch_due e now [] s = (s, true)
dispatch_due e now (r ∷ reminders) s =
    let rest = dispatch_due e now reminders (dispatch_once e r now (called s)) in
    if e.stopped s.calls then (called s, false) else rest

-- The body of the loop of `processUndeliveredRetry`.
unfoldable pub retry_once : Env → ℕ → Reminder → Scheduler → Scheduler
retry_once e now r s =
    if mem r.id s.just_parked || mem r.id s.failed_reminders
    then s
    else record_or_terminalize e r now r.undelivered_reason s

unfoldable pub retry_loop : Env → ℕ → List Reminder → Scheduler → Scheduler
retry_loop e now [] s = s
retry_loop e now (r ∷ retrying) s =
    let rest = retry_loop e now retrying (retry_once e now r (called s)) in
    if e.stopped s.calls then called s else rest

unfoldable pub process_undelivered_retry : Env → ℕ → Scheduler → Scheduler
process_undelivered_retry e now s =
    let (s', retrying) = get_undelivered_retry_reminders e s in
    elim retrying [ none ↦ s' | some l ↦ retry_loop e now l s' ]

-- The end of a pass: the terminalization, and `justParked` made anew.
unfoldable pub finish_pass : Env → ℕ → Scheduler → Scheduler
finish_pass e now s = record (process_undelivered_retry e now s) { just_parked = [] }

-- One tick, at the time `now`.
unfoldable pub process_due : Env → ℕ → Scheduler → Scheduler
process_due e now s =
    let (s', due) = get_due_reminders e now s in
    elim due [
      | none ↦ s'
      | some l ↦
          let (t, finished) = dispatch_due e now l s' in if finished then finish_pass e now t else t
    ]

-- The loop of `ReschedulePending`, which does not look at the context.
unfoldable pub dispatch_pending : Env → ℕ → List Reminder → Scheduler → Scheduler
dispatch_pending e now [] s = s
dispatch_pending e now (r ∷ reminders) s =
    dispatch_pending e now reminders (if ltb now r.due_at then s else dispatch_once e r now s)

unfoldable pub reschedule_pending : Env → ℕ → Scheduler → Scheduler
reschedule_pending e now s =
    let (s', pending) = get_pending_reminders e s in
    finish_pass e now (elim pending [ none ↦ s' | some l ↦ dispatch_pending e now l s' ])

-- What a process does one after the other: a tick of `run`, or `ReschedulePending`.
pub data Pass : Type 0 where
  tick reschedule : ℕ → Pass

abbrev pub run_pass : Env → Pass → Scheduler → Scheduler
run_pass e (tick now) s = process_due e now s
run_pass e (reschedule now) s = reschedule_pending e now s

unfoldable pub run : Env → List Pass → Scheduler → Scheduler
run e [] s = s
run e (p ∷ passes) s = run e passes (run_pass e p s)
