-- ===== src/Reminder/Scheduler/DeadTargets.antt =====
-- The chats that are gone, in internal/reminder/scheduler.go.
use famclaw.Prelude.{
  ℕ, suc, ◌≡◌, refl, ap, ◌∙◌, true, false, String, List, [], ◌∷◌, arith, if◌then◌else◌, Bool-cases,
  inl, inr,
}
use famclaw.Prelude.Text.{str_eq, eq_iff}
use famclaw.Reminder.Row.{Reminder, target_key}
use famclaw.Reminder.State.{Send, Env, Scheduler, mem_text}
use famclaw.Reminder.Table.{exec}
use famclaw.Reminder.Scheduler.{dispatch, Pass, run}
use famclaw.Reminder.Scheduler.Closure.{Closed, dispatch_once-Closed}
use famclaw.Reminder.Scheduler.PassClosure.{run-Closed}

-- The calls of `Sender.Send` for the target.
unfoldable pub sends_to : String → List Send → ℕ
sends_to k [] = 0
sends_to k (a ∷ sends) = let rest = sends_to k sends in if str_eq a.target k then suc rest else rest

-- A dead target stays dead, and gets no send.
record Silent (k : String) (s t : Scheduler) : Type 0 where
  dead :
      mem_text k s.invalid_targets ≡ true
      → (mem_text k t.invalid_targets ≡ true) × (sends_to k t.sends ≡ sends_to k s.sends)

Silent-Closed : (k : String) (e : Env) (j : ℕ) → Closed e (Silent k) j
Silent-Closed k e j = record {
  refl = λ s. record { dead = λ h. (h, refl) };
  trans = λ s t u p q. record {
    dead = λ h. ((q.dead (p.dead h).0).0, (q.dead (p.dead h).0).1 ∙ (p.dead h).1);
  };
  same = λ s t q p f d. record { dead = λ h. (rw d h, ap (sends_to k) p) };
  abandons = λ s. record { dead = λ h. (h, refl) };
  marks_dead = λ s m. record { dead = λ h. (ground arith, refl) };
  delivers = λ s now h. record { dead = λ p. unfold exec in (ground arith, ground arith) };
  writes = λ s h. record { dead = λ p. unfold exec in (ground arith, ground arith) };
}

not_in_dead :
    (k : String) (r : Reminder) (s : Scheduler)
    → mem_text (target_key r) s.invalid_targets ≡ false
    → mem_text k s.invalid_targets ≡ true
    → str_eq (target_key r) k ≡ false
not_in_dead k r s alive dead = elim (Bool-cases (str_eq (target_key r) k)) [
  | inr ne ↦ ne
  | inl same ↦ cc (ap (λ t. mem_text t s.invalid_targets) ((eq_iff (target_key r) k).0 same))
]

dispatch-Silent :
    (k : String) (e : Env) (r : Reminder) (s : Scheduler)
    → mem_text (target_key r) s.invalid_targets ≡ false
    → Silent k s (dispatch e r s).0
unfolding dispatch sends_to
dispatch-Silent k e r s alive = record {
  dead = λ h. (ground arith, ground (arith, not_in_dead k r s alive h));
}

-- Once a target is known to be dead, no pass of the process calls the gateway for it again, and it
-- stays known to be dead.
pub sends_to-run_dead :
    (e : Env) (passes : List Pass) (k : String) (s : Scheduler)
    → mem_text k s.invalid_targets ≡ true
    → let t = run e passes s in
      (mem_text k t.invalid_targets ≡ true) × (sends_to k t.sends ≡ sends_to k s.sends)
sends_to-run_dead e passes k s h =
    let visits = λ (now : ℕ) (r : Reminder) (t : Scheduler).
      dispatch_once-Closed r (Silent-Closed k e r.id) now t (dispatch-Silent k e r t) in
    (run-Closed (Silent-Closed k e) visits passes s).dead h
