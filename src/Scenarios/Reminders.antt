-- ===== src/Scenarios/Reminders.antt =====
-- A reminder whose gateway answers with an error, then works, then says that the chat is gone.
use famclaw.Prelude.{
  ◌+◌, ◌≤◌, ◌≡◌, refl, true, false, none, List, [], ◌∷◌, arith, ◌==◌, if◌then◌else◌,
}
use famclaw.Reminder.Row.{Reminder, pending, unset, chat_id, target_key}
use famclaw.Reminder.Table.{
  update, exec, set_delivered, mark_reminder_dispatched, set_undelivered, mark_undelivered,
  set_undelivered_retry, begin_undelivered_retry, add_terminal_attempt, increment_terminal_attempt,
  add_delivery_attempt, row?, read_attempts, increment_delivery_attempt, save_undelivered_reminder,
  insert_due, select_where, query, get_due_reminders, get_pending_reminders,
  get_undelivered_retry_reminders, create_reminder,
}
use famclaw.Reminder.Scheduler.{
  Pass, tick, reschedule, max_delivery_attempts, dispatch, abandon_in_memory, record_undelivered,
  finalize_undelivered, notify_fallback, park, handle_undeliverable, after_failure, after_dispatch,
  dispatch_once, record_or_terminalize, dispatch_due, retry_once, retry_loop,
  process_undelivered_retry, finish_pass, process_due, dispatch_pending, reschedule_pending, run,
}
use famclaw.Reminder.State.{sent, failed, Env, Scheduler, mem_text}
use famclaw.Reminder.Scheduler.View.{successes, is_delivered_row, sends_of, settled, outcomes_of}
use famclaw.Reminder.Scheduler.Passes.{IsUnique}
use famclaw.Reminder.Scheduler.Select.{count_id}
use famclaw.Reminder.Scheduler.Attempts.{sends_of-run}
use famclaw.Reminder.Scheduler.Truthful.{IsTruthful, run-IsTruthful}
use famclaw.Reminder.Scheduler.Once.{settled-run, successes-run}
use famclaw.Reminder.Scheduler.DeadTargets.{sends_to, sends_to-run_dead}

abbrev homework : Reminder
homework = record {
  id = 1;
  user_name = "ada";
  gateway = "telegram";
  external_id = "42";
  group_id = "";
  is_group = false;
  message = "homework";
  due_at = 100;
  dispatched = false;
  dispatched_at = none;
  setter_gateway = "telegram";
  setter_external_id = "7";
  delivery_attempts = 0;
  delivery_state = pending;
  terminal_attempts = 0;
  undelivered_reason = unset;
}

-- The third call, of the first send, fails.
abbrev flaky : Env
flaky = record {
  db_ok = λ n. true;
  send = λ n. if n == 2 then failed else sent;
  fallback_ok = λ n. true;
  stopped = λ n. false;
  registered = λ g. true;
  has_undelivered_store = true;
  has_fallback = true;
}

abbrev start : Scheduler
start = record {
  rows = homework ∷ [];
  records = [];
  sends = [];
  notices = [];
  calls = 0;
  failed_reminders = [];
  invalid_targets = [];
  just_parked = [];
}

-- The same, with the chat known to be gone.
abbrev dead : Scheduler
dead = record start { invalid_targets = "telegram|42" ∷ [] }

-- The same, with the reminder given up.
abbrev given_up : Scheduler
given_up = record start { failed_reminders = 1 ∷ [] }

abbrev passes : List Pass
passes = tick 100 ∷ tick 130 ∷ reschedule 160 ∷ []

start-IsUnique : IsUnique 1 start
unfolding count_id
start-IsUnique = omega arith

given_up-IsUnique : IsUnique 1 given_up
unfolding count_id
given_up-IsUnique = omega arith

given_up-settled : settled 1 given_up ≡ true
unfolding settled
given_up-settled = refl

start-IsTruthful : IsTruthful 1 start
unfolding is_delivered_row
start-IsTruthful = λ h. cc

sends_of-run_example :
    sends_of 1 (run flaky passes start) ≤ sends_of 1 start + max_delivery_attempts
sends_of-run_example = sends_of-run flaky passes 1 start start-IsUnique

run-IsTruthful_example : IsTruthful 1 (run flaky passes start)
run-IsTruthful_example = run-IsTruthful flaky passes 1 start start-IsTruthful

successes-run_example : successes 1 (run flaky passes start) ≤ successes 1 start + 1
successes-run_example = successes-run flaky passes 1 start start-IsUnique

settled-run_example :
    (settled 1 (run flaky passes given_up) ≡ true)
    × (outcomes_of 1 (run flaky passes given_up).sends ≡ outcomes_of 1 given_up.sends)
settled-run_example = settled-run flaky passes 1 given_up given_up-IsUnique given_up-settled

sends_to-run_dead_example :
    (mem_text "telegram|42" (run flaky passes dead).invalid_targets ≡ true)
    × (sends_to "telegram|42" (run flaky passes dead).sends ≡ sends_to "telegram|42" dead.sends)
sends_to-run_dead_example = sends_to-run_dead flaky passes "telegram|42" dead refl

-- The first send fails and the second delivers.
run_outcomes : outcomes_of 1 (run flaky passes start).sends ≡ sent ∷ failed ∷ []
unfolding outcomes_of chat_id target_key update exec set_delivered mark_reminder_dispatched
    set_undelivered mark_undelivered set_undelivered_retry begin_undelivered_retry
    add_terminal_attempt increment_terminal_attempt add_delivery_attempt row? read_attempts
    increment_delivery_attempt save_undelivered_reminder insert_due select_where query
    get_due_reminders get_pending_reminders get_undelivered_retry_reminders create_reminder dispatch
    abandon_in_memory record_undelivered finalize_undelivered notify_fallback park
    handle_undeliverable after_failure after_dispatch dispatch_once record_or_terminalize
    dispatch_due retry_once retry_loop process_undelivered_retry finish_pass process_due
    dispatch_pending reschedule_pending run
run_outcomes = refl
