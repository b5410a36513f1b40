-- ===== src/Agentcore/ToolLoop/Loop/Checked.antt =====
-- The checks of the tool loop over a whole turn.
use famclaw.Prelude.{
  ◌≡◌, refl, sym, ◌⊎◌, Bool, true, false, not, ◌&&◌, String, Option, none, some, List, [], arith,
  if◌then◌else◌, All,
}
use mathlib.Core.Path.{subst}
use mathlib.Core.Option.{some-injective}
use famclaw.Agentcore.Turn.{ToolCall, Message}
use famclaw.Agentcore.ToolLoop.State.{Deps, LoopState, offered}
use famclaw.Agentcore.ToolLoop.Call.Gate.{Permitted, Runs, ran_none, ran, process_call-Runs}
use famclaw.Agentcore.ToolLoop.Loop.{
  Model, Round, Exit, finished, llm_error, rounds, finish, stopped, first_round, iterations,
  stage_tool_loop,
}
use famclaw.Agentcore.ToolLoop.Loop.Rounds.{Carried, rounds-Carried}

-- A tool that the turn offers, permitted for this call.
abbrev pub Checked : Deps → List String → ToolCall → Type 0
Checked d tools tc = Permitted d tc × ((tools ≡ []) ⊎ (offered tc.name tools ≡ true))

abbrev KeepsChecked : Deps → List String → LoopState → LoopState → Type 0
KeepsChecked d tools s t = All (Checked d tools) s.executed → All (Checked d tools) t.executed

Runs-KeepsChecked :
    (d : Deps) (tools : List String) (tc : ToolCall) (s t : LoopState)
    → Runs d tools tc s t
    → KeepsChecked d tools s t
Runs-KeepsChecked d tools tc s t (ran_none e) h = subst (λ l. All (Checked d tools) l) (sym e) h
Runs-KeepsChecked d tools tc s t (ran e c) h =
    subst (λ l. All (Checked d tools) l) (sym e) ((c.permits, c.offers), h)

checked-Carried : (d : Deps) (tools : List String) → Carried d tools (KeepsChecked d tools)
checked-Carried d tools = record {
  between = λ s t q h. subst (λ l. All (Checked d tools) l) (sym q.executed_eq) h;
  composed = λ s t u f g h. g (f h);
  across = λ tc s. Runs-KeepsChecked d tools _ s _ (process_call-Runs d tools tc s);
}

pub finish-state : (q : Round × Exit) → (finish q).0.state ≡ q.0.state
unfolding finish
finish-state (r, llm_error i err) = refl
finish-state (r, finished) = ground arith

abbrev pub ran_rounds :
    Deps → Model → List String → List Message → String → List ToolCall → Round × Exit
ran_rounds d m tools msgs output pending =
    rounds d m tools (iterations m) 0 (first_round msgs output pending)

some_unless :
    (P : Round × Exit → Type 0) (b : Bool) (o : Option (Round × Exit))
    → (b ≡ false → (q : Round × Exit) → o ≡ some q → P q)
    → (q : Round × Exit) → (if b then none else o) ≡ some q
    → P q
some_unless P true o h q e = cc
some_unless P false o h q e = h refl q e

-- What holds at the end of the rounds, after the note, holds of the turn.
pub stage_of_finish :
    (P : Round × Exit → Type 0) (d : Deps) (m : Model) (tools : List String)
    (llm_messages : Option (List Message)) (output : String) (pending : List ToolCall)
    → (stopped pending ≡ false
        → (msgs : List Message) → P (finish (ran_rounds d m tools msgs output pending)))
    → (q : Round × Exit) → stage_tool_loop d m tools llm_messages output pending ≡ some q
    → P q
unfolding stage_tool_loop
stage_of_finish P d m tools none output pending h q e =
    some_unless P (not d.has_pool && not d.has_builtin_handler) _
      (λ c. some_unless P (stopped pending) none (λ k q e. cc)) q e
stage_of_finish P d m tools (some msgs) output pending h q e =
    some_unless P (not d.has_pool && not d.has_builtin_handler) _
      (λ c. some_unless P (stopped pending) _ (λ k q e. subst P (some-injective _ _ e) (h k msgs)))
      q e

-- In every turn, whatever the model asks for, each tool call that was executed is one that the turn
-- offers (or it offers none at all), and there is no policy, or the policy, asked about this very
-- call, has answered `allow`.
pub stage_tool_loop-Checked :
    (d : Deps) (m : Model) (tools : List String) (msgs : Option (List Message)) (output : String)
    (pending : List ToolCall) (q : Round × Exit)
    → stage_tool_loop d m tools msgs output pending ≡ some q
    → All (Checked d tools) q.0.state.executed
stage_tool_loop-Checked d m tools msgs output pending q e =
    stage_of_finish (λ q. All (Checked d tools) q.0.state.executed) d m tools msgs output pending
      (λ k l.
        subst (λ s. All (Checked d tools) s.executed)
          (sym (finish-state (ran_rounds d m tools l output pending)))
          (rounds-Carried d tools _ (checked-Carried d tools) m (iterations m) 0
            (first_round l output pending) tt))
      q e
