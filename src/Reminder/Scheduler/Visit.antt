-- ===== src/Reminder/Scheduler/Visit.antt =====
-- A call of the gateway for one reminder, seen from another (internal/reminder/scheduler.go).
use famclaw.Prelude.{ℕ, ◌≢◌, arith}
use famclaw.Reminder.Row.{Reminder}
use famclaw.Reminder.State.{Env, Scheduler}
use famclaw.Reminder.Scheduler.{dispatch}
use famclaw.Reminder.Scheduler.View.{outcomes_of, settled}
use famclaw.Reminder.Scheduler.Calm.{Calm}
use famclaw.Reminder.Scheduler.Apart.{Apart}

module _ (e : Env) (r : Reminder) (i : ℕ) (s : Scheduler) where
  pub dispatch-Calm : r.id ≢ i → Calm i s (dispatch e r s).0
  unfolding dispatch outcomes_of settled
  dispatch-Calm n = record {
    sends = ground arith;
    attempts = ground arith;
    settles = λ p. ground arith;
  }

  pub dispatch-Apart : Apart i s (dispatch e r s).0
  unfolding dispatch
  dispatch-Apart = record { waits = ground arith }
