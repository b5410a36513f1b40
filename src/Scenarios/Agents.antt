-- ===== src/Scenarios/Agents.antt =====
-- A subagent is started and sends its result.
use famclaw.Prelude.{◌≡◌, refl, none, [], ◌∷◌}
use famclaw.Subagent.{Outcome, new_scheduler, submit, deliver, submits, delivers}
use famclaw.Subagent.Reachable.{done, then_step, IsSound, Steps-IsSound}

abbrev sunny : Outcome
sunny = record { output = "sunny"; error = none }

one_runs : (submit (new_scheduler 1)).0.running ≡ 1 ∷ []
unfolding submit
one_runs = refl

second_refused : (submit (submit (new_scheduler 1)).0).1 ≡ none
unfolding submit
second_refused = refl

Steps-IsSound_example : IsSound (deliver [] 1 [] sunny (submit (new_scheduler 1)).0)
Steps-IsSound_example =
    Steps-IsSound 1 (deliver [] 1 [] sunny (submit (new_scheduler 1)).0)
      (then_step (then_step done submits) (delivers [] [] 1 sunny one_runs))
