-- ===== src/Reminder/Scheduler/Settled.antt =====
-- A reminder that the scheduler gives up on is settled.
use famclaw.Prelude.{ℕ, ◌≡◌, Bool, true, false, not, arith, if◌then◌else◌, leb}
use famclaw.Reminder.Row.{Reminder, Reason, is_pending}
use famclaw.Reminder.State.{Env, Scheduler}
use famclaw.Reminder.Table.{
  update, exec, set_undelivered, set_undelivered_retry, set_delivered, mark_undelivered,
  begin_undelivered_retry, mark_reminder_dispatched,
}
use famclaw.Reminder.Scheduler.{
  abandon_in_memory, finalize_undelivered, park, handle_undeliverable, record_undelivered,
  notify_fallback, max_terminal_attempts,
}
use famclaw.Reminder.Scheduler.View.{settled, waiting-update_self}

settled-if :
    (i : ℕ) (b : Bool) (s t : Scheduler)
    → settled i s ≡ true
    → settled i t ≡ true
    → settled i (if b then s else t) ≡ true
settled-if i true s t h k = h
settled-if i false s t h k = k

settled-abandon_in_memory :
    (r : Reminder) (s : Scheduler) → settled r.id (abandon_in_memory r s) ≡ true
unfolding settled abandon_in_memory
settled-abandon_in_memory r s = ground arith

module _ (e : Env) (r : Reminder) where
  -- The statement takes the row out of the state `pending`, or the reminder is abandoned.
  settled-mark :
      (change : Reminder → Reminder) (s : Scheduler)
      → ((q : Reminder) → is_pending (change q).delivery_state ≡ false)
      → ((q : Reminder) → (change q).id ≡ q.id)
      → let (s', marked) = exec e (update r.id change) s in
        settled r.id (if marked then s' else abandon_in_memory r s') ≡ true
  unfolding settled exec abandon_in_memory
  settled-mark change s leaves id = ground (arith, waiting-update_self r.id change s.rows leaves id)

  settled-finalize_undelivered :
      (now : ℕ) (reason : Reason) (s : Scheduler)
      → settled r.id (finalize_undelivered e r now reason s) ≡ true
  unfolding finalize_undelivered mark_undelivered
  settled-finalize_undelivered now reason s =
      settled-mark (set_undelivered now reason) s (λ q. ground arith) (λ q. ground arith)

  settled-park : (reason : Reason) (s : Scheduler) → settled r.id (park e r reason s) ≡ true
  unfolding park begin_undelivered_retry settled exec set_undelivered_retry abandon_in_memory
  settled-park reason s = ground (
    arith,
    waiting-update_self r.id (set_undelivered_retry reason) s.rows (λ q. ground arith)
        (λ q. ground arith),
  )

  pub settled-handle_undeliverable :
      (now : ℕ) (reason : Reason) (s : Scheduler)
      → settled r.id (handle_undeliverable e r now reason s) ≡ true
  unfolding handle_undeliverable
  settled-handle_undeliverable now reason s =
      let (s', recorded) = record_undelivered e r reason s in
      let t = notify_fallback e r s' in
      let final = settled-finalize_undelivered now reason t in
      settled-if r.id recorded _ _ final (
        settled-if r.id (not e.has_undelivered_store) _ _ final (
          settled-if r.id (leb max_terminal_attempts r.terminal_attempts) _ _ final
            (settled-park reason t)))

  pub settled-mark_dispatched :
      (now : ℕ) (s : Scheduler)
      → let (s', marked) = mark_reminder_dispatched e r.id now s in
        settled r.id (if marked then s' else abandon_in_memory r s') ≡ true
  unfolding mark_reminder_dispatched
  settled-mark_dispatched now s =
      settled-mark (set_delivered now) s (λ q. ground arith) (λ q. ground arith)
