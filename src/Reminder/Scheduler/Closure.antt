-- ===== src/Reminder/Scheduler/Closure.antt =====
-- A relation between states that each statement and each change in memory respects is respected by
-- the methods of internal/reminder/scheduler.go that are made of them.
use famclaw.Prelude.{
  ℕ, ◌<◌, ◌≡◌, refl, Bool, true, false, not, ◌||◌, Option, none, some, ◌∷◌, String, arith, leb,
  if◌then◌else◌,
}
use famclaw.Reminder.Row.{Reminder, Reason, target_key}
use famclaw.Reminder.State.{Delivery, Env, Scheduler, sent, chat_gone, failed, mem, mem_text}
use famclaw.Reminder.Table.{
  update, exec, set_delivered, set_undelivered, set_undelivered_retry, add_terminal_attempt,
  add_delivery_attempt, mark_reminder_dispatched, mark_undelivered, begin_undelivered_retry,
  increment_terminal_attempt, increment_delivery_attempt, save_undelivered_reminder,
}
use famclaw.Reminder.Scheduler.View.{successes, outcomes_of, count_sent}
use famclaw.Reminder.Scheduler.{
  max_delivery_attempts, max_terminal_attempts, abandon_in_memory, record_undelivered,
  finalize_undelivered, notify_fallback, park, handle_undeliverable, after_failure, after_dispatch,
  record_or_terminalize, retry_once, dispatch, dispatch_once,
}

-- The statements that write the table `reminders`, but for the one that marks a delivery.
pub data Statement : (Reminder → Reminder) → Type 0 where
  closes : (now : ℕ) (reason : Reason) → Statement (set_undelivered now reason)
  parks : (reason : Reason) → Statement (set_undelivered_retry reason)
  retries : Statement add_terminal_attempt
  counts : Statement add_delivery_attempt

-- The relation is respected by what is done to reminder `j`.
pub record Closed (e : Env) (R : Scheduler → Scheduler → Type 0) (j : ℕ) : Type 0 where
  pub refl : (s : Scheduler) → R s s
  pub trans : (s t u : Scheduler) → R s t → R t u → R s u
  pub same :
      (s t : Scheduler)
      → t.rows ≡ s.rows
      → t.sends ≡ s.sends
      → t.failed_reminders ≡ s.failed_reminders
      → t.invalid_targets ≡ s.invalid_targets
      → R s t
  pub abandons : (s : Scheduler) → R s (record s { failed_reminders = j ∷ s.failed_reminders })
  pub marks_dead :
      (s : Scheduler) (k : String) → R s (record s { invalid_targets = k ∷ s.invalid_targets })
  -- a delivery is marked only after a call that succeeded
  pub delivers :
      (s : Scheduler) (now : ℕ)
      → 0 < successes j s
      → R s (exec e (update j (set_delivered now)) s).0
  pub writes :
      {change : Reminder → Reminder} (s : Scheduler)
      → Statement change
      → R s (exec e (update j change) s).0

module _ {e : Env} {R : Scheduler → Scheduler → Type 0} (r : Reminder)
    (closed : Closed e R r.id) where
  pub Closed-if : (b : Bool) (s t u : Scheduler) → R s t → R s u → R s (if b then t else u)
  Closed-if true s t u h k = h
  Closed-if false s t u h k = k

  record_undelivered-Closed :
      (reason : Reason) (s : Scheduler) → R s (record_undelivered e r reason s).0
  unfolding record_undelivered save_undelivered_reminder
  record_undelivered-Closed reason s =
      closed.same s _ (ground arith) (ground arith) (ground arith) (ground arith)

  notify_fallback-Closed : (s : Scheduler) → R s (notify_fallback e r s)
  unfolding notify_fallback
  notify_fallback-Closed s =
      closed.same s _ (ground arith) (ground arith) (ground arith) (ground arith)

  write_or_abandon-Closed :
      (p : Scheduler × Bool) (s : Scheduler)
      → R s p.0
      → R s (if p.1 then p.0 else abandon_in_memory r p.0)
  unfolding abandon_in_memory
  write_or_abandon-Closed (t, done) s h =
      closed.trans s t _ h (Closed-if done t t _ (closed.refl t) (closed.abandons t))

  finalize_undelivered-Closed :
      (now : ℕ) (reason : Reason) (s : Scheduler) → R s (finalize_undelivered e r now reason s)
  unfolding finalize_undelivered mark_undelivered
  finalize_undelivered-Closed now reason s =
      write_or_abandon-Closed _ s (closed.writes s (closes now reason))

  park-Closed : (reason : Reason) (s : Scheduler) → R s (park e r reason s)
  unfolding park begin_undelivered_retry abandon_in_memory
  park-Closed reason s =
      let (s', begun) = exec e (update r.id (set_undelivered_retry reason)) s in
      closed.trans s s' _ (closed.writes s (parks reason))
        (Closed-if begun s' _ _ (closed.same s' _ refl refl refl refl) (closed.abandons s'))

  pub handle_undeliverable-Closed :
      (now : ℕ) (reason : Reason) (s : Scheduler) → R s (handle_undeliverable e r now reason s)
  unfolding handle_undeliverable
  handle_undeliverable-Closed now reason s =
      let (s', recorded) = record_undelivered e r reason s in
      let t = notify_fallback e r s' in
      let final = finalize_undelivered-Closed now reason t in
      closed.trans s s' _ (record_undelivered-Closed reason s) (
        closed.trans s' t _ (notify_fallback-Closed s') (
          Closed-if recorded t _ _ final (
            Closed-if (not e.has_undelivered_store) t _ _ final (
              Closed-if (leb max_terminal_attempts r.terminal_attempts) t _ _ final
                (park-Closed reason t)))))

  after_failure-Closed :
      (now : ℕ) (attempts : Option ℕ) (s : Scheduler) → R s (after_failure e r now attempts s)
  unfolding after_failure
  after_failure-Closed now none s = handle_undeliverable-Closed now _ s
  after_failure-Closed now (some attempts) s =
      Closed-if (leb max_delivery_attempts attempts) s _ _ (handle_undeliverable-Closed now _ s)
        (closed.refl s)

  increment_delivery_attempt-Closed : (s : Scheduler) → R s (increment_delivery_attempt e r.id s).0
  unfolding increment_delivery_attempt
  increment_delivery_attempt-Closed s =
      let (s', written) = exec e (update r.id add_delivery_attempt) s in
      closed.trans s s' _ (closed.writes s counts)
        (closed.same s' _ (ground arith) (ground arith) (ground arith) (ground arith))

  pub after_dispatch-Closed :
      (now : ℕ) (outcome : Delivery) (s : Scheduler)
      → (outcome ≡ sent → 0 < successes r.id s)
      → R s (after_dispatch e r now outcome s)
  unfolding after_dispatch mark_reminder_dispatched
  after_dispatch-Closed now sent s h = write_or_abandon-Closed _ s (closed.delivers s now (h refl))
  after_dispatch-Closed now chat_gone s h =
      closed.trans s _ _ (closed.marks_dead s (target_key r)) (handle_undeliverable-Closed now _ _)
  after_dispatch-Closed now failed s h =
      let (s', attempts) = increment_delivery_attempt e r.id s in
      closed.trans s s' _ (increment_delivery_attempt-Closed s)
        (after_failure-Closed now attempts s')

  record_or_terminalize-Closed :
      (now : ℕ) (reason : Reason) (s : Scheduler) → R s (record_or_terminalize e r now reason s)
  unfolding record_or_terminalize increment_terminal_attempt
  record_or_terminalize-Closed now reason s =
      let (s', recorded) = record_undelivered e r reason s in
      let final = finalize_undelivered-Closed now reason s' in
      closed.trans s s' _ (record_undelivered-Closed reason s) (
        Closed-if recorded s' _ _ final (
          Closed-if (leb max_terminal_attempts r.terminal_attempts) s' _ _ final
            (write_or_abandon-Closed _ s' (closed.writes s' retries))))

  pub retry_once-Closed : (now : ℕ) (s : Scheduler) → R s (retry_once e now r s)
  unfolding retry_once
  retry_once-Closed now s =
      Closed-if (mem r.id s.just_parked || mem r.id s.failed_reminders) s _ _ (closed.refl s)
        (record_or_terminalize-Closed now r.undelivered_reason s)

  Closed-if_eq :
      (b : Bool) (s t u : Scheduler) → R s t → (b ≡ false → R s u) → R s (if b then t else u)
  Closed-if_eq true s t u h k = h
  Closed-if_eq false s t u h k = k refl

  pub sent_counts :
      (s : Scheduler) → (dispatch e r s).1 ≡ sent → 0 < successes r.id (dispatch e r s).0
  unfolding dispatch outcomes_of count_sent
  sent_counts s h = ground arith

  -- The gateway is called only if the target is not known to be dead.
  pub dispatch_once-Closed :
      (now : ℕ) (s : Scheduler)
      → (mem_text (target_key r) s.invalid_targets ≡ false → R s (dispatch e r s).0)
      → R s (dispatch_once e r now s)
  unfolding dispatch_once
  dispatch_once-Closed now s h =
      let (s', outcome) = dispatch e r s in
      Closed-if (mem r.id s.failed_reminders) s _ _ (closed.refl s) (
        Closed-if_eq (mem_text (target_key r) s.invalid_targets) s _ _
          (handle_undeliverable-Closed now _ s)
          (λ alive.
            closed.trans s s' _ (h alive) (after_dispatch-Closed now outcome s' (sent_counts s))))
