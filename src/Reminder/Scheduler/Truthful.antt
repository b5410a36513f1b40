-- ===== src/Reminder/Scheduler/Truthful.antt =====
-- Rows that say `delivered` (internal/reminder/scheduler.go, internal/store/db.go).
use famclaw.Prelude.{
  ℕ, ◌<◌, ◌≡◌, refl, true, false, List, [], ◌∷◌, arith, ◌==◌, Bool-cases, inl, inr,
}
use famclaw.Reminder.Row.{Reminder, is_delivered}
use famclaw.Reminder.State.{Env, Scheduler}
use famclaw.Reminder.Table.{
  update, exec, set_delivered, set_undelivered, set_undelivered_retry, add_terminal_attempt,
  add_delivery_attempt,
}
use famclaw.Reminder.Scheduler.{dispatch, Pass, run}
use famclaw.Reminder.Scheduler.View.{outcomes_of, count_sent, successes, is_delivered_row}
use famclaw.Reminder.Scheduler.Closure.{
  Closed, Statement, closes, parks, retries, counts, dispatch_once-Closed,
}
use famclaw.Reminder.Scheduler.PassClosure.{run-Closed}
use famclaw.Reminder.Scheduler.Calm.{Statement-id, set_delivered-IsMild}

Statement-delivered :
    {change : Reminder → Reminder}
    → Statement change
    → (r : Reminder) → is_delivered (change r).delivery_state ≡ true
    → is_delivered r.delivery_state ≡ true
unfolding set_undelivered set_undelivered_retry add_terminal_attempt add_delivery_attempt
Statement-delivered (closes now reason) r h = ground arith
Statement-delivered (parks reason) r h = ground arith
Statement-delivered retries r h = ground arith
Statement-delivered counts r h = ground arith

is_delivered_row-update :
    (i j : ℕ) {change : Reminder → Reminder} (rows : List Reminder)
    → Statement change
    → is_delivered_row i (update j change rows) ≡ true
    → is_delivered_row i rows ≡ true
unfolding is_delivered_row update
is_delivered_row-update i j [] st h = h
is_delivered_row-update i j (r ∷ rows) st h =
    ground (arith, Statement-id st r, Statement-delivered st r, is_delivered_row-update i j rows st)

-- A delivery that is marked for another reminder.
is_delivered_row-update_ne :
    (i j now : ℕ) (rows : List Reminder)
    → (j == i) ≡ false
    → is_delivered_row i (update j (set_delivered now) rows) ≡ is_delivered_row i rows
unfolding is_delivered_row update
is_delivered_row-update_ne i j now [] n = refl
is_delivered_row-update_ne i j now (r ∷ rows) n =
    ground (arith, (set_delivered-IsMild now).id r, is_delivered_row-update_ne i j now rows n)

abbrev pub IsTruthful : ℕ → Scheduler → Type 0
IsTruthful i s = is_delivered_row i s.rows ≡ true → 0 < successes i s

record Truth (i : ℕ) (s t : Scheduler) : Type 0 where
  keeps : IsTruthful i s → IsTruthful i t

Truth-marked :
    (i j now : ℕ) (e : Env) (s : Scheduler)
    → 0 < successes j s
    → Truth i s (exec e (update j (set_delivered now)) s).0
unfolding exec
Truth-marked i j now e s h = elim (Bool-cases (j == i)) [
  | inl here ↦ record { keeps = λ t d. ground arith }
  | inr there ↦ record {
    keeps = λ t d. ground (arith, is_delivered_row-update_ne i j now s.rows there);
  }
]

Truth-Closed : (i : ℕ) (e : Env) (j : ℕ) → Closed e (Truth i) j
Truth-Closed i e j = record {
  refl = λ s. record { keeps = λ h. h };
  trans = λ s t u p q. record { keeps = λ h. q.keeps (p.keeps h) };
  same = λ s t q p f d. record { keeps = λ h. rw (q, p) h };
  abandons = λ s. record { keeps = λ h. h };
  marks_dead = λ s k. record { keeps = λ h. h };
  delivers = λ s now h. Truth-marked i j now e s h;
  writes = λ s st. record {
    keeps = λ h d. unfold exec in ground (arith, is_delivered_row-update i j s.rows st);
  };
}

dispatch-Truth : (i : ℕ) (e : Env) (r : Reminder) (s : Scheduler) → Truth i s (dispatch e r s).0
unfolding dispatch outcomes_of count_sent
dispatch-Truth i e r s = record { keeps = λ h d. ground arith }

-- If every row in the state `delivered` has a call of the gateway that succeeded behind it, then so
-- it is after any passes: what is not delivered is never marked as delivered.
pub run-IsTruthful :
    (e : Env) (passes : List Pass) (i : ℕ) (s : Scheduler)
    → IsTruthful i s
    → IsTruthful i (run e passes s)
run-IsTruthful e passes i s h =
    let visits = λ (now : ℕ) (r : Reminder) (t : Scheduler).
      dispatch_once-Closed r (Truth-Closed i e r.id) now t (λ _. dispatch-Truth i e r t) in
    (run-Closed (Truth-Closed i e) visits passes s).keeps h
