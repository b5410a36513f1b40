-- ===== src/Reminder/Scheduler/PassClosure.antt =====
-- Relations that hold across each visit of a reminder hold across the passes of scheduler.go.
use famclaw.Prelude.{
  ℕ, refl, Bool, true, false, Option, none, some, List, [], ◌∷◌, ltb, Bool-cases, inl, inr,
  if◌then◌else◌,
}
use famclaw.Reminder.Row.{Reminder}
use famclaw.Reminder.State.{Env, Scheduler, called}
use famclaw.Reminder.Table.{
  get_undelivered_retry_reminders, get_due_reminders, get_pending_reminders, query,
}
use famclaw.Reminder.Scheduler.{
  retry_once, retry_loop, process_undelivered_retry, finish_pass, dispatch_once, dispatch_due,
  process_due, dispatch_pending, reschedule_pending, Pass, tick, reschedule, run_pass, run,
}
use famclaw.Reminder.Scheduler.Closure.{Closed, Closed-if, retry_once-Closed}

module _ {e : Env} {R : Scheduler → Scheduler → Type 0} (closed : (j : ℕ) → Closed e R j) where
  retry_loop-Closed : (now : ℕ) (l : List Reminder) (s : Scheduler) → R s (retry_loop e now l s)
  unfolding retry_loop
  retry_loop-Closed now [] s = (closed 0).refl s
  retry_loop-Closed now (r ∷ l) s =
      let c = closed r.id in
      let t = called s in
      let u = retry_once e now r t in
      let step = c.same s t refl refl refl refl in
      Closed-if r c (e.stopped s.calls) s t _ step (
        c.trans s t _ step
          (c.trans t u _ (retry_once-Closed r c now t) (retry_loop-Closed now l u)))

  retry-Closed :
      (now : ℕ) (retrying : Option (List Reminder)) (s : Scheduler)
      → R s (elim retrying [ none ↦ s | some l ↦ retry_loop e now l s ])
  retry-Closed now none s = (closed 0).refl s
  retry-Closed now (some l) s = retry_loop-Closed now l s

  pub finish_pass-Closed : (now : ℕ) (s : Scheduler) → R s (finish_pass e now s)
  unfolding finish_pass process_undelivered_retry get_undelivered_retry_reminders query
  finish_pass-Closed now s =
      let c = closed 0 in
      let (s', retrying) = get_undelivered_retry_reminders e s in
      let t = process_undelivered_retry e now s in
      c.trans s s' _ (c.same s s' refl refl refl refl)
        (c.trans s' t _ (retry-Closed now retrying s') (c.same t _ refl refl refl refl))

  module _ (visits : (now : ℕ) (r : Reminder) (s : Scheduler) → R s (dispatch_once e r now s)) where
    dispatch_due-Closed :
        (now : ℕ) (l : List Reminder) (s : Scheduler) → R s (dispatch_due e now l s).0
    unfolding dispatch_due
    dispatch_due-Closed now [] s = (closed 0).refl s
    dispatch_due-Closed now (r ∷ l) s =
        let c = closed r.id in
        let t = called s in
        let u = dispatch_once e r now t in
        let step = c.same s t refl refl refl refl in
        elim (Bool-cases (e.stopped s.calls)) [
          | inl stop ↦ rw stop step
          | inr on ↦
              rw on
                (c.trans s t _ step (c.trans t u _ (visits now r t) (dispatch_due-Closed now l u)))
        ]

    after_due-Closed :
        (now : ℕ) (p : Scheduler × Bool) (s : Scheduler)
        → R s p.0
        → R s (if p.1 then finish_pass e now p.0 else p.0)
    after_due-Closed now (t, true) s h = (closed 0).trans s t _ h (finish_pass-Closed now t)
    after_due-Closed now (t, false) s h = h

    due-Closed :
        (now : ℕ) (due : Option (List Reminder)) (s : Scheduler)
        → R s (elim due [
          | none ↦ s
          | some l ↦
              let (t, finished) = dispatch_due e now l s in
              if finished then finish_pass e now t else t
        ])
    due-Closed now none s = (closed 0).refl s
    due-Closed now (some l) s =
        after_due-Closed now (dispatch_due e now l s) s (dispatch_due-Closed now l s)

    process_due-Closed : (now : ℕ) (s : Scheduler) → R s (process_due e now s)
    unfolding process_due get_due_reminders query
    process_due-Closed now s =
        let c = closed 0 in
        let (s', due) = get_due_reminders e now s in
        c.trans s s' _ (c.same s s' refl refl refl refl) (due-Closed now due s')

    dispatch_pending-Closed :
        (now : ℕ) (l : List Reminder) (s : Scheduler) → R s (dispatch_pending e now l s)
    unfolding dispatch_pending
    dispatch_pending-Closed now [] s = (closed 0).refl s
    dispatch_pending-Closed now (r ∷ l) s =
        let u = if ltb now r.due_at then s else dispatch_once e r now s in
        (closed 0).trans s u _
          (Closed-if r (closed r.id) (ltb now r.due_at) s _ _ ((closed 0).refl s) (visits now r s))
          (dispatch_pending-Closed now l u)

    pending-Closed :
        (now : ℕ) (pending : Option (List Reminder)) (s : Scheduler)
        → R s (elim pending [ none ↦ s | some l ↦ dispatch_pending e now l s ])
    pending-Closed now none s = (closed 0).refl s
    pending-Closed now (some l) s = dispatch_pending-Closed now l s

    reschedule_pending-Closed : (now : ℕ) (s : Scheduler) → R s (reschedule_pending e now s)
    unfolding reschedule_pending get_pending_reminders query
    reschedule_pending-Closed now s =
        let c = closed 0 in
        let (s', pending) = get_pending_reminders e s in
        c.trans s s' _ (c.same s s' refl refl refl refl)
          (c.trans s' _ _ (pending-Closed now pending s') (finish_pass-Closed now _))

    pub run_pass-Closed : (p : Pass) (s : Scheduler) → R s (run_pass e p s)
    run_pass-Closed (tick now) s = process_due-Closed now s
    run_pass-Closed (reschedule now) s = reschedule_pending-Closed now s

    pub run-Closed : (passes : List Pass) (s : Scheduler) → R s (run e passes s)
    unfolding run
    run-Closed [] s = (closed 0).refl s
    run-Closed (p ∷ passes) s =
        (closed 0).trans s (run_pass e p s) _ (run_pass-Closed p s)
          (run-Closed passes (run_pass e p s))
