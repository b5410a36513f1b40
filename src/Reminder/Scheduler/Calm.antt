-- ===== src/Reminder/Scheduler/Calm.antt =====
-- Steps that send nothing, and after which a reminder is as settled as before.
use famclaw.Prelude.{ℕ, ◌≤◌, ◌≡◌, refl, length, ap, ◌∙◌, true, ◌∷◌, arith}
use famclaw.Reminder.Row.{Reminder, Reason}
use famclaw.Reminder.State.{Env, Scheduler}
use famclaw.Reminder.Table.{
  update, exec, set_delivered, set_undelivered, set_undelivered_retry, add_terminal_attempt,
  add_delivery_attempt,
}
use famclaw.Reminder.Scheduler.Closure.{Closed, Statement, closes, parks, retries, counts}
use famclaw.Reminder.Scheduler.View.{
  outcomes_of, sends_of, attempts_of, settled, IsMild, attempts_of-update, waiting-update,
}

pub record Calm (i : ℕ) (s t : Scheduler) : Type 0 where
  pub sends : outcomes_of i t.sends ≡ outcomes_of i s.sends
  pub attempts : attempts_of i s.rows ≤ attempts_of i t.rows
  pub settles : settled i s ≡ true → settled i t ≡ true

pub Calm-refl : (i : ℕ) (s : Scheduler) → Calm i s s
Calm-refl i s = record { sends = refl; attempts = omega arith; settles = λ h. h }

pub Calm-trans : (i : ℕ) (s t u : Scheduler) → Calm i s t → Calm i t u → Calm i s u
Calm-trans i s t u h k = record {
  sends = k.sends ∙ h.sends;
  attempts = omega (arith, h.attempts, k.attempts);
  settles = λ p. k.settles (h.settles p);
}

pub set_delivered-IsMild : (now : ℕ) → IsMild (set_delivered now)
unfolding set_delivered
set_delivered-IsMild now = record {
  id = λ r. ground arith;
  attempts = λ r. ground arith;
  waits = λ r h. ground arith;
}

set_undelivered-IsMild : (now : ℕ) (reason : Reason) → IsMild (set_undelivered now reason)
unfolding set_undelivered
set_undelivered-IsMild now reason = record {
  id = λ r. ground arith;
  attempts = λ r. ground arith;
  waits = λ r h. ground arith;
}

set_undelivered_retry-IsMild : (reason : Reason) → IsMild (set_undelivered_retry reason)
unfolding set_undelivered_retry
set_undelivered_retry-IsMild reason = record {
  id = λ r. ground arith;
  attempts = λ r. ground arith;
  waits = λ r h. ground arith;
}

add_terminal_attempt-IsMild : IsMild add_terminal_attempt
unfolding add_terminal_attempt
add_terminal_attempt-IsMild = record {
  id = λ r. ground arith;
  attempts = λ r. ground arith;
  waits = λ r h. ground arith;
}

add_delivery_attempt-IsMild : IsMild add_delivery_attempt
unfolding add_delivery_attempt
add_delivery_attempt-IsMild = record {
  id = λ r. refl;
  attempts = λ r. omega arith;
  waits = λ r h. h;
}

Statement-IsMild : {change : Reminder → Reminder} → Statement change → IsMild change
Statement-IsMild (closes now reason) = set_undelivered-IsMild now reason
Statement-IsMild (parks reason) = set_undelivered_retry-IsMild reason
Statement-IsMild retries = add_terminal_attempt-IsMild
Statement-IsMild counts = add_delivery_attempt-IsMild

pub Statement-id :
    {change : Reminder → Reminder} → Statement change → (r : Reminder) → (change r).id ≡ r.id
Statement-id h = (Statement-IsMild h).id

exec-Calm :
    (i : ℕ) (e : Env) (j : ℕ) {change : Reminder → Reminder} (s : Scheduler)
    → IsMild change
    → Calm i s (exec e (update j change) s).0
unfolding exec settled
exec-Calm i e j s h = record {
  sends = ground arith;
  attempts = ground (arith, attempts_of-update j h i s.rows);
  settles = λ p. ground (arith, waiting-update j h i s.rows);
}

Calm-same :
    (i : ℕ) (s t : Scheduler)
    → t.rows ≡ s.rows
    → t.sends ≡ s.sends
    → t.failed_reminders ≡ s.failed_reminders
    → Calm i s t
unfolding settled
Calm-same i s t q p f = record {
  sends = ap (outcomes_of i) p;
  attempts = rw q (omega arith);
  settles = λ h. rw (q, f) h;
}

abandon-Calm :
    (i j : ℕ) (s : Scheduler) → Calm i s (record s { failed_reminders = j ∷ s.failed_reminders })
unfolding settled
abandon-Calm i j s = record { sends = refl; attempts = omega arith; settles = λ h. ground arith }

pub Calm-Closed : (i : ℕ) (e : Env) (j : ℕ) → Closed e (Calm i) j
Calm-Closed i e j = record {
  refl = Calm-refl i;
  trans = Calm-trans i;
  same = λ s t q p f d. Calm-same i s t q p f;
  abandons = abandon-Calm i j;
  marks_dead = λ s k. Calm-same i s _ refl refl refl;
  delivers = λ s now h. exec-Calm i e j s (set_delivered-IsMild now);
  writes = λ s h. exec-Calm i e j s (Statement-IsMild h);
}

pub sends_of-Calm : (i : ℕ) (s t : Scheduler) → Calm i s t → sends_of i t ≡ sends_of i s
sends_of-Calm i s t c = ap length c.sends
