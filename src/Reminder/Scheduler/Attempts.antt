-- ===== src/Reminder/Scheduler/Attempts.antt =====
-- The bounded retry of internal/reminder/scheduler.go: how often one process sends one reminder.
use famclaw.Prelude.{
  ℕ, ◌+◌, ◌≤◌, ◌<◌, ◌≡◌, refl, ◌⊎◌, inl, inr, true, Option, none, some, List, [], ◌∷◌, arith, leb,
  Bool-cases, ap, sym,
}
use mathlib.Core.Path.{subst}
use famclaw.Reminder.Row.{Reminder, target_key}
use famclaw.Reminder.State.{Delivery, sent, chat_gone, failed, Env, Scheduler, mem, mem_text}
use famclaw.Reminder.Table.{
  update, exec, add_delivery_attempt, increment_delivery_attempt, row?, read_attempts,
}
use famclaw.Reminder.Scheduler.{
  dispatch, after_failure, after_dispatch, dispatch_once, Pass, run, max_delivery_attempts,
}
use famclaw.Reminder.Scheduler.View.{
  successes, waiting, attempts_of, outcomes_of, sends_of, settled,
}
use famclaw.Reminder.Scheduler.Closure.{
  handle_undeliverable-Closed, after_dispatch-Closed, sent_counts,
}
use famclaw.Reminder.Scheduler.Calm.{sends_of-Calm, Calm, Calm-Closed}
use famclaw.Reminder.Scheduler.Settled.{settled-handle_undeliverable, settled-mark_dispatched}
use famclaw.Reminder.Scheduler.Passes.{IsUnique, Kept, run-Kept}

-- At most three sends beyond the first `n`, and none is left to make or the row counts them.
record IsBounded (n i : ℕ) (s : Scheduler) : Type 0 where
  sends : sends_of i s ≤ n + 3
  open_or_settled :
      (settled i s ≡ true) ⊎ ((sends_of i s ≤ n + attempts_of i s.rows) × (sends_of i s < n + 3))

IsBounded-Calm : (n i : ℕ) (s t : Scheduler) → Calm i s t → IsBounded n i s → IsBounded n i t
IsBounded-Calm n i s t c h =
    let q = sends_of-Calm i s t c in
    elim h.open_or_settled [
      | inl p ↦ record { sends = omega (arith, h.sends); open_or_settled = inl (c.settles p) }
      | inr p ↦ record {
        sends = omega (arith, h.sends);
        open_or_settled = inr (omega (arith, c.attempts), omega arith);
      }
    ]

attempts_of-row? :
    (i k : ℕ) (rows : List Reminder) → read_attempts (row? i rows) ≡ some k → attempts_of i rows ≡ k
unfolding read_attempts row? attempts_of
attempts_of-row? i k [] h = cc
attempts_of-row? i k (r ∷ rows) h = ground (arith, attempts_of-row? i k rows)

attempts_of-add :
    (i : ℕ) (rows : List Reminder)
    → waiting i rows ≡ true
    → attempts_of i (update i add_delivery_attempt rows) ≡ attempts_of i rows + 1
unfolding attempts_of waiting update add_delivery_attempt
attempts_of-add i [] w = cc
attempts_of-add i (r ∷ rows) w = ground (arith, attempts_of-add i rows)

increment_counts :
    (e : Env) (i k : ℕ) (s : Scheduler)
    → waiting i s.rows ≡ true
    → (increment_delivery_attempt e i s).1 ≡ some k
    → (attempts_of i (increment_delivery_attempt e i s).0.rows ≡ attempts_of i s.rows + 1)
      × (attempts_of i s.rows + 1 ≡ k)
unfolding increment_delivery_attempt exec
increment_counts e i k s w h =
    ground (
      arith,
      attempts_of-add i s.rows w,
      attempts_of-row? i k (update i add_delivery_attempt s.rows),
    )

module _ (e : Env) (r : Reminder) (now : ℕ) where
  after_failure_cases :
      (attempts : Option ℕ) (s : Scheduler)
      → (settled r.id (after_failure e r now attempts s) ≡ true)
        ⊎ ((k : ℕ) × (attempts ≡ some k) × (k < 3) × (after_failure e r now attempts s ≡ s))
  unfolding after_failure
  after_failure_cases none s = inl (settled-handle_undeliverable e r now _ s)
  after_failure_cases (some k) s = elim (Bool-cases (leb 3 k)) [
    | inl full ↦ inl (rw full (settled-handle_undeliverable e r now _ s))
    | inr room ↦ inr (k, refl, ground arith, rw room)
  ]

  -- After a send the reminder is settled, or its row counts one more attempt and is not full.
  after_dispatch_cases :
      (outcome : Delivery) (s : Scheduler)
      → waiting r.id s.rows ≡ true
      → let t = after_dispatch e r now outcome s in
        (settled r.id t ≡ true)
        ⊎ ((attempts_of r.id t.rows ≡ attempts_of r.id s.rows + 1) × (attempts_of r.id t.rows < 3))
  unfolding after_dispatch
  after_dispatch_cases sent s w = inl (settled-mark_dispatched e r now s)
  after_dispatch_cases chat_gone s w = inl (settled-handle_undeliverable e r now _ _)
  after_dispatch_cases failed s w =
      let (s', attempts) = increment_delivery_attempt e r.id s in
      elim (after_failure_cases attempts s') [
        | inl done ↦ inl done
        | inr (k, read, room, same) ↦
            let c = increment_counts e r.id k s w read in
            inr (rw same (c.0), rw same (omega (arith, c)))
      ]

  after_send-IsBounded :
      (n : ℕ) (outcome : Delivery) (s t : Scheduler)
      → waiting r.id s.rows ≡ true
      → t.rows ≡ s.rows
      → sends_of r.id t ≤ sends_of r.id s + 1
      → sends_of r.id s ≤ n + attempts_of r.id s.rows
      → sends_of r.id s < n + 3
      → (outcome ≡ sent → 0 < successes r.id t)
      → IsBounded n r.id (after_dispatch e r now outcome t)
  after_send-IsBounded n outcome s t w same sends room few done =
      let c = after_dispatch-Closed r (Calm-Closed r.id e r.id) now outcome t done in
      let q = sends_of-Calm r.id t _ c in
      elim (after_dispatch_cases outcome t (rw same w)) [
        | inl done ↦ record { sends = omega arith; open_or_settled = inl done }
        | inr p ↦
            let a : attempts_of r.id t.rows ≡ attempts_of r.id s.rows =
              ap (attempts_of r.id) same in
            record {
              sends = omega arith;
              open_or_settled = inr (omega (arith, p, a), omega (arith, p, a));
            }
      ]

  dispatch_adds_one :
      (s : Scheduler)
      → ((dispatch e r s).0.rows ≡ s.rows)
        × (sends_of r.id (dispatch e r s).0 ≤ sends_of r.id s + 1)
  unfolding dispatch outcomes_of
  dispatch_adds_one s = (ground arith, ground arith)

  -- One visit of the reminder, while it is pending.
  dispatch_once-IsBounded :
      (n : ℕ) (s : Scheduler)
      → waiting r.id s.rows ≡ true
      → IsBounded n r.id s
      → IsBounded n r.id (dispatch_once e r now s)
  unfolding dispatch_once settled
  dispatch_once-IsBounded n s w h = elim (Bool-cases (mem r.id s.failed_reminders)) [
    | inl gone ↦ rw gone h
    | inr here ↦ elim (Bool-cases (mem_text (target_key r) s.invalid_targets)) [
      | inl dead ↦
          rw (here, dead)
            (IsBounded-Calm n r.id s _
              (handle_undeliverable-Closed r (Calm-Closed r.id e r.id) now _ s) h)
      | inr alive ↦
          let d = dispatch_adds_one s in
          rw (here, alive)
            (elim h.open_or_settled [
              | inl done ↦ absurd (ground arith)
              | inr p ↦
                  after_send-IsBounded n (dispatch e r s).1 s (dispatch e r s).0 w d.0 d.1 p.0 p.1
                    (sent_counts r (Calm-Closed r.id e r.id) s)
            ])
    ]
  ]

IsBounded-Kept : (e : Env) (n i : ℕ) → Kept e i (IsBounded n i)
IsBounded-Kept e n i = record {
  calm = λ s t c h. IsBounded-Calm n i s t c h;
  visit = λ r now s p w h.
      subst (λ j. IsBounded n j (dispatch_once e r now s)) p
        (dispatch_once-IsBounded e r now n s (rw p w) (subst (λ j. IsBounded n j s) (sym p) h));
}

-- Whatever the database, the gateways and the fallback do, and for however many passes, one
-- process calls the gateway for a reminder, whose id is unique in the table, at most
-- `MaxDeliveryAttempts` times.
pub sends_of-run :
    (e : Env) (passes : List Pass) (i : ℕ) (s : Scheduler)
    → IsUnique i s
    → sends_of i (run e passes s) ≤ sends_of i s + max_delivery_attempts
sends_of-run e passes i s u =
    (run-Kept (IsBounded-Kept e (sends_of i s) i) passes s u
      (record { sends = omega arith; open_or_settled = inr (omega arith, omega arith) })).sends
