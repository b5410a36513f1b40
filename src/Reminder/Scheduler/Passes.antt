-- ===== src/Reminder/Scheduler/Passes.antt =====
-- What holds of one reminder through the passes of internal/reminder/scheduler.go.
use famclaw.Prelude.{
  ℕ, ◌≤◌, ◌≡◌, ◌≢◌, refl, ◌⊎◌, inl, inr, Bool, true, false, List, [], ◌∷◌, arith, ◌==◌, ==_iff, ltb,
  leb, if◌then◌else◌, Bool-cases, ◌&&◌,
}
use famclaw.Reminder.Row.{Reminder, is_pending}
use famclaw.Reminder.State.{Env, Scheduler, called}
use famclaw.Reminder.Table.{get_due_reminders, get_pending_reminders, query, select_where}
use famclaw.Reminder.Scheduler.{
  dispatch_once, dispatch_due, finish_pass, process_due, dispatch_pending, reschedule_pending, Pass,
  tick, reschedule, run_pass, run,
}
use famclaw.Reminder.Scheduler.View.{waiting}
use famclaw.Reminder.Scheduler.Closure.{dispatch_once-Closed}
use famclaw.Reminder.Scheduler.PassClosure.{finish_pass-Closed, run_pass-Closed}
use famclaw.Reminder.Scheduler.Calm.{Calm, Calm-Closed}
use famclaw.Reminder.Scheduler.Select.{count_id, count_id-select_where, count_id-not_waiting}
use famclaw.Reminder.Scheduler.Apart.{Apart-Closed, SameIds-Closed, dispatch-SameIds}
use famclaw.Reminder.Scheduler.Visit.{dispatch-Calm, dispatch-Apart}

-- A property that what is calm for reminder `i`, and each visit of it while it is pending, keep.
pub record Kept (e : Env) (i : ℕ) (Q : Scheduler → Type 0) : Type 0 where
  pub calm : (s t : Scheduler) → Calm i s t → Q s → Q t
  pub visit :
      (r : Reminder) (now : ℕ) (s : Scheduler)
      → r.id ≡ i
      → waiting i s.rows ≡ true
      → Q s
      → Q (dispatch_once e r now s)

module _ {e : Env} {i : ℕ} {Q : Scheduler → Type 0} (kept : Kept e i Q) (now : ℕ) where
  called-Kept : (s : Scheduler) → Q s → Q (called s)
  called-Kept s h = kept.calm s _ ((Calm-Closed i e i).same s _ refl refl refl refl) h

  other-Kept : (r : Reminder) (s : Scheduler) → r.id ≢ i → Q s → Q (dispatch_once e r now s)
  other-Kept r s d h =
      kept.calm s _
        (dispatch_once-Closed r (Calm-Closed i e r.id) now s (λ _. dispatch-Calm e r i s d)) h

  other-waiting :
      (r : Reminder) (s : Scheduler)
      → r.id ≢ i
      → waiting i (dispatch_once e r now s).rows ≡ waiting i s.rows
  other-waiting r s d =
      (dispatch_once-Closed r (Apart-Closed i e r.id d) now s (λ _. dispatch-Apart e r i s)).waits

  -- The pass visits the reminder at most once, and only while it is pending.
  dispatch_due-Kept :
      (l : List Reminder) (s : Scheduler)
      → count_id i l ≤ 1
      → (count_id i l ≡ 0) ⊎ (waiting i s.rows ≡ true)
      → Q s
      → Q (dispatch_due e now l s).0
  unfolding dispatch_due count_id
  dispatch_due-Kept [] s u w h = h
  dispatch_due-Kept (r ∷ l) s u w h = elim (Bool-cases (e.stopped s.calls)) [
    | inl stop ↦ rw stop (called-Kept s h)
    | inr on ↦ elim (Bool-cases (r.id == i)) [
      | inl here ↦
          let p = (==_iff r.id i).0 here in
          rw on (
            dispatch_due-Kept l (dispatch_once e r now (called s)) (ground arith)
              (inl (ground arith)) (kept.visit r now (called s) p (ground arith) (called-Kept s h)))
      | inr there ↦
          let d : r.id ≢ i = λ p. absurd (ground arith) in
          rw on (
            dispatch_due-Kept l (dispatch_once e r now (called s)) (ground arith)
              (ground (arith, other-waiting r (called s) d))
              (other-Kept r (called s) d (called-Kept s h)))
    ]
  ]

  after_due-Kept :
      (t : Scheduler) (finished : Bool) → Q t → Q (if finished then finish_pass e now t else t)
  after_due-Kept t true h = kept.calm t _ (finish_pass-Closed (Calm-Closed i e) now t) h
  after_due-Kept t false h = h

  process_due-Kept : (s : Scheduler) → count_id i s.rows ≤ 1 → Q s → Q (process_due e now s)
  unfolding process_due get_due_reminders query
  process_due-Kept s u h = elim (Bool-cases (e.db_ok s.calls)) [
    | inl ok ↦
        let test = λ (r : Reminder). is_pending r.delivery_state && leb r.due_at now in
        let l = select_where test s.rows in
        let few = count_id-select_where i test s.rows in
        let absent = count_id-not_waiting i test s.rows (λ r p. ground arith) u in
        let listed : (count_id i l ≡ 0) ⊎ (waiting i s.rows ≡ true) =
          elim (Bool-cases (waiting i s.rows)) [ inl w ↦ inr w | inr w ↦ inl (absent w) ] in
        let d = dispatch_due-Kept l (called s) (omega arith) listed (called-Kept s h) in
        rw (ok, process_due) (after_due-Kept _ _ d)
    | inr down ↦ rw (down, process_due) (called-Kept s h)
  ]

  dispatch_pending-Kept :
      (l : List Reminder) (s : Scheduler)
      → count_id i l ≤ 1
      → (count_id i l ≡ 0) ⊎ (waiting i s.rows ≡ true)
      → Q s
      → Q (dispatch_pending e now l s)
  unfolding dispatch_pending count_id
  dispatch_pending-Kept [] s u w h = h
  dispatch_pending-Kept (r ∷ l) s u w h = elim (Bool-cases (ltb now r.due_at)) [
    | inl early ↦ rw early (dispatch_pending-Kept l s (ground arith) (ground arith) h)
    | inr due ↦ elim (Bool-cases (r.id == i)) [
      | inl here ↦ rw due (
          dispatch_pending-Kept l (dispatch_once e r now s) (ground arith) (inl (ground arith))
            (kept.visit r now s ((==_iff r.id i).0 here) (ground arith) h))
      | inr there ↦
          let d : r.id ≢ i = λ p. absurd (ground arith) in
          rw due (
            dispatch_pending-Kept l (dispatch_once e r now s) (ground arith)
              (ground (arith, other-waiting r s d)) (other-Kept r s d h))
    ]
  ]

  reschedule_pending-Kept :
      (s : Scheduler) → count_id i s.rows ≤ 1 → Q s → Q (reschedule_pending e now s)
  unfolding reschedule_pending get_pending_reminders query
  reschedule_pending-Kept s u h = elim (Bool-cases (e.db_ok s.calls)) [
    | inl ok ↦
        let test = λ (r : Reminder). is_pending r.delivery_state in
        let l = select_where test s.rows in
        let few = count_id-select_where i test s.rows in
        let absent = count_id-not_waiting i test s.rows (λ r p. p) u in
        let listed : (count_id i l ≡ 0) ⊎ (waiting i s.rows ≡ true) =
          elim (Bool-cases (waiting i s.rows)) [ inl w ↦ inr w | inr w ↦ inl (absent w) ] in
        let d = dispatch_pending-Kept l (called s) (omega arith) listed (called-Kept s h) in
        rw (ok, reschedule_pending) (after_due-Kept _ true d)
    | inr down ↦ rw (down, reschedule_pending) (after_due-Kept _ true (called-Kept s h))
  ]

-- A reminder's row is the only one with its id.
abbrev pub IsUnique : ℕ → Scheduler → Type 0
IsUnique i s = count_id i s.rows ≤ 1

run_pass-IsUnique :
    (e : Env) (p : Pass) (i : ℕ) (s : Scheduler) → IsUnique i s → IsUnique i (run_pass e p s)
run_pass-IsUnique e p i s u =
    let visits = λ (now : ℕ) (r : Reminder) (t : Scheduler).
      dispatch_once-Closed r (SameIds-Closed i e r.id) now t (λ _. dispatch-SameIds i e r t) in
    rw ((run_pass-Closed (SameIds-Closed i e) visits p s).ids) u

module _ {e : Env} {i : ℕ} {Q : Scheduler → Type 0} (kept : Kept e i Q) where
  run_pass-Kept : (p : Pass) (s : Scheduler) → IsUnique i s → Q s → Q (run_pass e p s)
  run_pass-Kept (tick now) s u h = process_due-Kept kept now s u h
  run_pass-Kept (reschedule now) s u h = reschedule_pending-Kept kept now s u h

  -- The property holds after any passes of the process.
  pub run-Kept : (passes : List Pass) (s : Scheduler) → IsUnique i s → Q s → Q (run e passes s)
  unfolding run
  run-Kept [] s u h = h
  run-Kept (p ∷ passes) s u h =
      run-Kept passes (run_pass e p s) (run_pass-IsUnique e p i s u) (run_pass-Kept p s u h)
