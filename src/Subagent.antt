-- ===== src/Subagent.antt =====
-- The scheduler of subagents (internal/subagent/scheduler.go): `Submit` and the goroutine that it
-- starts, one step for each of their parts that others can come between.
pub mod Reachable
use famclaw.Prelude.{
  ℕ, suc, ◌-◌, ◌≡◌, Bool, true, false, String, Option, none, some, List, [], ◌∷◌, ◌++◌, leb, ◌==◌,
  if◌then◌else◌,
}

-- What `executor` returns.
pub record Outcome : Type 0 where
  pub output : String
  pub error : Option String

-- The number of `agentID` stands for its text.
pub record Result : Type 0 where
  pub agent_id : ℕ
  pub outcome : Outcome

pub record Scheduler : Type 0 where
  pub max_concurrent : ℕ
  pub active : ℕ
  pub id_counter : ℕ
  -- the goroutines before and after they send to their channel, and what was sent
  pub running : List ℕ
  pub leaving : List ℕ
  pub results : List Result

-- A negative limit of the source is treated as 0.
abbrev pub new_scheduler : ℕ → Scheduler
new_scheduler max = record {
  max_concurrent = if max == 0 then 1 else max;
  active = 0;
  id_counter = 0;
  running = [];
  leaving = [];
  results = [];
}

-- `none` is the error of a full queue.
unfoldable pub submit : Scheduler → Scheduler × Option ℕ
submit s = if leb s.max_concurrent s.active then (s, none) else (
  record s {
    active = suc s.active;
    id_counter = suc s.id_counter;
    running = suc s.id_counter ∷ s.running;
  },
  some (suc s.id_counter),
)

-- The goroutine `id`, which stands between `before` and `after`, sends its result.
unfoldable pub deliver : List ℕ → ℕ → List ℕ → Outcome → Scheduler → Scheduler
deliver before id after outcome s = record s {
  running = before ++ after;
  leaving = id ∷ s.leaving;
  results = record { agent_id = id; outcome = outcome } ∷ s.results;
}

-- The deferred end of a goroutine.
unfoldable pub release : List ℕ → List ℕ → Scheduler → Scheduler
release before after s = record s { active = s.active - 1; leaving = before ++ after }

pub data Step : Scheduler → Scheduler → Type 0 where
  submits : {s : Scheduler} → Step s (submit s).0
  delivers :
      {s : Scheduler} (before after : List ℕ) (id : ℕ) (outcome : Outcome)
      → s.running ≡ before ++ id ∷ after
      → Step s (deliver before id after outcome s)
  releases :
      {s : Scheduler} (before after : List ℕ) (id : ℕ)
      → s.leaving ≡ before ++ id ∷ after
      → Step s (release before after s)
