-- ===== src/Subagent/Reachable.antt =====
-- What holds of the scheduler of subagents in every interleaving.
use famclaw.Prelude.{
  ℕ, suc, ◌+◌, ◌≤◌, ◌<◌, ◌≡◌, ap, ◌∙◌, inl, inr, List, [], ◌∷◌, ◌++◌, arith, leb, ◌==◌,
  if◌then◌else◌, length, length-append, Bool-cases,
}
use famclaw.Subagent.{
  Outcome, Result, Scheduler, new_scheduler, submit, deliver, release, Step, submits, delivers,
  releases,
}

-- Any number of steps.
pub data Steps : Scheduler → Scheduler → Type 0 where
  done : {s : Scheduler} → Steps s s
  then_step : {s t u : Scheduler} → Steps s t → Step t u → Steps s u

unfoldable pub occurs : ℕ → List ℕ → ℕ
occurs i [] = 0
occurs i (j ∷ l) = let rest = occurs i l in if i == j then suc rest else rest

-- The results that the agent has sent.
unfoldable pub results_of : ℕ → List Result → ℕ
results_of i [] = 0
results_of i (r ∷ l) = let rest = results_of i l in if i == r.agent_id then suc rest else rest

occurs-append : (i : ℕ) (l k : List ℕ) → occurs i (l ++ k) ≡ occurs i l + occurs i k
unfolding occurs
occurs-append i [] k = omega arith
occurs-append i (j ∷ l) k = ground (arith, occurs-append i l k)

-- The counter counts the goroutines and keeps to the limit; an agent sends once, after it has been
-- started.
pub record IsSound (s : Scheduler) : Type 0 where
  pub counts : s.active ≡ length s.running + length s.leaving
  pub limited : s.active ≤ s.max_concurrent
  pub once : (i : ℕ) → occurs i s.running + results_of i s.results ≤ 1
  pub started : (i : ℕ) → s.id_counter < i → occurs i s.running + results_of i s.results ≡ 0

submit-IsSound : (s : Scheduler) → IsSound s → IsSound (submit s).0
unfolding submit occurs
submit-IsSound s h = elim (Bool-cases (leb s.max_concurrent s.active)) [
  | inl full ↦ rw full h
  | inr free ↦ rw free (record {
    counts = (let c = h.counts in omega (arith, c));
    limited = ground arith;
    once = λ i. let a = h.once i in let b = h.started i in ground arith;
    started = λ i p. let b = h.started i (omega arith) in ground arith;
  })
]

deliver-IsSound :
    (before after : List ℕ) (id : ℕ) (outcome : Outcome) (s : Scheduler)
    → s.running ≡ before ++ id ∷ after
    → IsSound s
    → IsSound (deliver before id after outcome s)
unfolding deliver results_of occurs
deliver-IsSound before after id outcome s e h =
    let n = ap length e ∙ length-append before (id ∷ after) in
    let k = length-append before after in
    let o = λ (i : ℕ). ap (occurs i) e ∙ occurs-append i before (id ∷ after) in
    let p = λ (i : ℕ). occurs-append i before after in
    record {
      counts = (let c = h.counts in omega (arith, n, k, c));
      limited = h.limited;
      once = λ i. let a = h.once i in let x = o i in let y = p i in ground arith;
      started = λ i q. let a = h.started i q in let x = o i in let y = p i in ground arith;
    }

release-IsSound :
    (before after : List ℕ) (id : ℕ) (s : Scheduler)
    → s.leaving ≡ before ++ id ∷ after
    → IsSound s
    → IsSound (release before after s)
unfolding release
release-IsSound before after id s e h =
    let n = ap length e ∙ length-append before (id ∷ after) in
    let k = length-append before after in
    let c = h.counts in
    record {
      counts = omega (arith, n, k, c);
      limited = (let l = h.limited in omega (arith, l));
      once = h.once;
      started = h.started;
    }

Step-IsSound : {s t : Scheduler} → Step s t → IsSound s → IsSound t
Step-IsSound {s} submits h = submit-IsSound s h
Step-IsSound {s} (delivers before after id outcome e) h =
    deliver-IsSound before after id outcome s e h
Step-IsSound {s} (releases before after id e) h = release-IsSound before after id s e h

new_scheduler-IsSound : (max : ℕ) → IsSound (new_scheduler max)
unfolding occurs results_of
new_scheduler-IsSound max = record {
  counts = omega arith;
  limited = omega arith;
  once = λ i. omega arith;
  started = λ i p. omega arith;
}

IsSound-Steps : {s t : Scheduler} → Steps s t → IsSound s → IsSound t
IsSound-Steps done h = h
IsSound-Steps (then_step steps step) h = Step-IsSound step (IsSound-Steps steps h)

-- However submissions and goroutines interleave, `active` is the number of the subagents that have
-- not ended, it never exceeds the limit, and no subagent sends more than one result.
pub Steps-IsSound : (max : ℕ) (s : Scheduler) → Steps (new_scheduler max) s → IsSound s
Steps-IsSound max s steps = IsSound-Steps steps (new_scheduler-IsSound max)
