-- ===== src/Reminder/Scheduler/Once.antt =====
-- What is settled stays so, and is delivered once (internal/reminder/scheduler.go).
use famclaw.Prelude.{
  ℕ, ◌+◌, ◌≤◌, ◌≡◌, refl, ap, sym, ◌∙◌, ◌⊎◌, inl, inr, true, List, arith, Bool-cases,
}
use mathlib.Core.Path.{subst}
use famclaw.Reminder.Row.{Reminder, target_key}
use famclaw.Reminder.State.{Delivery, sent, Env, Scheduler, mem, mem_text}
use famclaw.Reminder.Scheduler.{dispatch, after_dispatch, dispatch_once, Pass, run}
use famclaw.Reminder.Scheduler.View.{waiting, outcomes_of, count_sent, successes, settled}
use famclaw.Reminder.Scheduler.Closure.{
  handle_undeliverable-Closed, after_dispatch-Closed, sent_counts,
}
use famclaw.Reminder.Scheduler.Calm.{Calm, Calm-Closed}
use famclaw.Reminder.Scheduler.Settled.{settled-mark_dispatched}
use famclaw.Reminder.Scheduler.Passes.{IsUnique, Kept, run-Kept}

-- The reminder is settled, with these calls of the gateway so far.
record IsClosed (i : ℕ) (l : List Delivery) (s : Scheduler) : Type 0 where
  settles : settled i s ≡ true
  calls : outcomes_of i s.sends ≡ l

IsClosed-Kept : (e : Env) (i : ℕ) (l : List Delivery) → Kept e i (IsClosed i l)
unfolding dispatch_once settled
IsClosed-Kept e i l = record {
  calm = λ s t c h. record { settles = c.settles h.settles; calls = c.sends ∙ h.calls };
  visit = λ r now s p w h.
      let m : mem r.id s.failed_reminders ≡ true = rw p (ground (arith, h.settles)) in rw m h;
}

-- A reminder that the process has given up, or that is no longer pending, is not sent again by any
-- pass of the process.
pub settled-run :
    (e : Env) (passes : List Pass) (i : ℕ) (s : Scheduler)
    → IsUnique i s
    → settled i s ≡ true
    → let t = run e passes s in
      (settled i t ≡ true) × (outcomes_of i t.sends ≡ outcomes_of i s.sends)
settled-run e passes i s u h =
    let k =
      run-Kept (IsClosed-Kept e i (outcomes_of i s.sends)) passes s u
        (record { settles = h; calls = refl }) in
    (k.settles, k.calls)

-- At most one delivery beyond the first `n`, and none is left to make if there was one.
record IsOnce (n i : ℕ) (s : Scheduler) : Type 0 where
  delivered : successes i s ≤ n + 1
  last : (settled i s ≡ true) ⊎ (successes i s ≤ n)

IsOnce-Calm : (n i : ℕ) (s t : Scheduler) → Calm i s t → IsOnce n i s → IsOnce n i t
IsOnce-Calm n i s t c h =
    let q : successes i t ≡ successes i s = ap count_sent c.sends in
    record {
      delivered = omega (arith, h.delivered);
      last = elim h.last [ inl p ↦ inl (c.settles p) | inr p ↦ inr (omega arith) ];
    }

module _ (e : Env) (r : Reminder) (now : ℕ) where
  after_dispatch-settles_sent :
      (s : Scheduler) → settled r.id (after_dispatch e r now sent s) ≡ true
  unfolding after_dispatch
  after_dispatch-settles_sent s = settled-mark_dispatched e r now s

  dispatch-successes :
      (s : Scheduler)
      → (((dispatch e r s).1 ≡ sent) × (successes r.id (dispatch e r s).0 ≡ successes r.id s + 1))
        ⊎ (successes r.id (dispatch e r s).0 ≡ successes r.id s)
  unfolding dispatch outcomes_of count_sent
  dispatch-successes s = ground arith

  after_send-IsOnce :
      (n : ℕ) (s : Scheduler)
      → successes r.id s ≤ n
      → IsOnce n r.id (after_dispatch e r now (dispatch e r s).1 (dispatch e r s).0)
  after_send-IsOnce n s few =
      let (t, outcome) = dispatch e r s in
      let c =
        after_dispatch-Closed r (Calm-Closed r.id e r.id) now outcome t
          (sent_counts r (Calm-Closed r.id e r.id) s) in
      let q : successes r.id (after_dispatch e r now outcome t) ≡ successes r.id t =
        ap count_sent c.sends in
      elim (dispatch-successes s) [
        | inl (done, one) ↦ record {
          delivered = omega arith;
          last = inl (rw done (after_dispatch-settles_sent t));
        }
        | inr none_more ↦ record { delivered = omega arith; last = inr (omega arith) }
      ]

  dispatch_once-IsOnce :
      (n : ℕ) (s : Scheduler)
      → waiting r.id s.rows ≡ true
      → IsOnce n r.id s
      → IsOnce n r.id (dispatch_once e r now s)
  unfolding dispatch_once settled
  dispatch_once-IsOnce n s w h = elim (Bool-cases (mem r.id s.failed_reminders)) [
    | inl gone ↦ rw gone h
    | inr here ↦ elim (Bool-cases (mem_text (target_key r) s.invalid_targets)) [
      | inl dead ↦
          rw (here, dead)
            (IsOnce-Calm n r.id s _
              (handle_undeliverable-Closed r (Calm-Closed r.id e r.id) now _ s) h)
      | inr alive ↦
          rw (here, alive)
            (elim h.last [ inl done ↦ absurd (ground arith) | inr few ↦ after_send-IsOnce n s few ])
    ]
  ]

IsOnce-Kept : (e : Env) (n i : ℕ) → Kept e i (IsOnce n i)
IsOnce-Kept e n i = record {
  calm = λ s t c h. IsOnce-Calm n i s t c h;
  visit = λ r now s p w h.
      subst (λ j. IsOnce n j (dispatch_once e r now s)) p
        (dispatch_once-IsOnce e r now n s (rw p w) (subst (λ j. IsOnce n j s) (sym p) h));
}

-- One process delivers a reminder, whose id is unique in the table, at most once, also if the mark
-- of the delivery cannot be written.
pub successes-run :
    (e : Env) (passes : List Pass) (i : ℕ) (s : Scheduler)
    → IsUnique i s
    → successes i (run e passes s) ≤ successes i s + 1
successes-run e passes i s u =
    (run-Kept (IsOnce-Kept e (successes i s) i) passes s u
      (record { delivered = omega arith; last = inr (omega arith) })).delivered
