-- ===== src/Agentcore/ToolLoop/Loop/Note.antt =====
-- The correction of an answer after a turn in which every tool call failed.
use Prim.Native.String.{◌++◌ as ◌⧺◌}
use famclaw.Prelude.{
  ℕ, zero, suc, ◌≤◌, ◌≡◌, refl, sym, ◌∙◌, ap, inl, inr, Bool, true, false, not, String, Option,
  none, some, List, [], ◌∷◌, arith, if◌then◌else◌, All, Option-cases, length, length-append,
}
use mathlib.Core.Path.{subst}
use famclaw.Prelude.Text.{str_eq}
use famclaw.Agentcore.Turn.{ToolCall, Message, ToolResult}
use famclaw.Agentcore.ToolLoop.State.{Deps, called}
use famclaw.Agentcore.ToolLoop.Loop.{
  Model, Round, Exit, finished, llm_error, process_batch, start_batch, run_batch, next_round,
  rounds, finish, stopped, first_round, iterations, stage_tool_loop, all_failed,
  should_prepend_failure_note, tool_failure_note,
}
use famclaw.Agentcore.ToolLoop.Loop.Rounds.{settle_round-Same, next_round-Same, round_cases}
use famclaw.Agentcore.ToolLoop.Loop.Answers.{process_batch-Answered}
use famclaw.Agentcore.ToolLoop.Loop.Retries.{rounds-RetriesNone}
use famclaw.Agentcore.ToolLoop.Loop.Checked.{stage_of_finish, finish-state}
use famclaw.Agentcore.Json.{end}

abbrev pub Failed : ToolResult → Type 0
Failed r = ¬ (r.error ≡ none)

all_failed-All : (results : List ToolResult) → All Failed results → all_failed results ≡ true
unfolding all_failed
all_failed-All [] h = refl
all_failed-All (r ∷ results) h = elim (Option-cases r.error) [
  | inl e ↦ elim (h.0 e) [ ]
  | inr (err, e) ↦ rw e (all_failed-All results h.1)
]

run_batch-length :
    (d : Deps) (m : Model) (tools : List String) (r : Round)
    → length r.pending ≤ length (run_batch d m tools r).tool_calls
unfolding run_batch
run_batch-length d m tools r =
    let s = start_batch r.state in
    let a = process_batch-Answered d tools r.pending s in
    let e = ap length a.results_eq ∙ length-append s.tool_calls a.results in
    let q = settle_round-Same m (process_batch d tools r.pending s) in
    let eq = ap length q.results_eq in omega (arith, e, eq, a.as_many)

rounds-length :
    (d : Deps) (m : Model) (tools : List String) (n i : ℕ) (r : Round)
    → length r.state.tool_calls ≤ length (rounds d m tools n i r).0.state.tool_calls
rounds-length d m tools n i r =
    let g = rounds-RetriesNone "" end d m tools n i r in
    let e = ap length g.results_eq ∙ length-append r.state.tool_calls g.results in omega (arith, e)

pending_length : (pending : List ToolCall) → stopped pending ≡ false → 1 ≤ length pending
pending_length [] h = cc
pending_length (tc ∷ pending) h = omega arith

-- One round of a loop that goes on leaves a result.
rounds-nonempty :
    (d : Deps) (m : Model) (tools : List String) (n i : ℕ) (r : Round)
    → stopped r.pending ≡ false
    → 1 ≤ length (rounds d m tools (suc n) i r).0.state.tool_calls
unfolding rounds
rounds-nonempty d m tools n i r h =
    let s = run_batch d m tools r in
    let pending : 1 ≤ length r.pending = pending_length r.pending h in
    round_cases (λ q. 1 ≤ length q.0.state.tool_calls) r.pending (r, finished)
      (m.chat s.calls s.msgs) (λ err. (record r { state = called s }, llm_error (suc i) err))
      (λ content calls. rounds d m tools n (suc i) (next_round (called s) content calls)) (λ k. cc)
      (λ err k e. omega (arith, pending, run_batch-length d m tools r))
      (λ content calls k e.
        let t = next_round (called s) content calls in
        let same = ap length (next_round-Same s content calls).results_eq in
        omega
          (arith, pending, same, run_batch-length d m tools r, rounds-length d m tools n (suc i) t))

-- The output starts with the note.
abbrev pub Warns : String → Type 0
Warns output = (rest : String) × (output ≡ tool_failure_note ⧺ rest)

should_prepend_failure_note-All :
    (results : List ToolResult) (b : Bool)
    → b ≡ true
    → 1 ≤ length results
    → All Failed results
    → should_prepend_failure_note results b ≡ true
unfolding should_prepend_failure_note
should_prepend_failure_note-All [] b h l f = ground arith
should_prepend_failure_note-All (r ∷ results) b h l f = rw h (all_failed-All (r ∷ results) f)

Warns-if :
    (b : Bool) (rest : String) → Warns (if b then tool_failure_note else tool_failure_note ⧺ rest)
Warns-if true rest = ("", refl)
Warns-if false rest = (rest, refl)

Warns-unless :
    (b : Bool) (p q : Round × Exit)
    → b ≡ true
    → Warns q.0.output
    → Warns (if not b then p else q).0.output
Warns-unless true p q h w = w
Warns-unless false p q h w = cc

finish-Warns :
    (q : Round × Exit)
    → q.1 ≡ finished
    → stopped q.0.pending ≡ true
    → 1 ≤ length q.0.state.tool_calls
    → All Failed q.0.state.tool_calls
    → Warns (finish q).0.output
unfolding finish
finish-Warns (r, llm_error i err) h k l f = cc
finish-Warns (r, finished) h k l f =
    Warns-unless (should_prepend_failure_note r.state.tool_calls (stopped r.pending)) (r, finished)
      _ (should_prepend_failure_note-All r.state.tool_calls (stopped r.pending) k l f)
      (Warns-if (str_eq r.output "") ("\n\n" ⧺ r.output))

finish-exit : (q : Round × Exit) → (finish q).1 ≡ q.1
unfolding finish
finish-exit (r, llm_error i err) = refl
finish-exit (r, finished) = ground arith

finish-pending : (q : Round × Exit) → (finish q).0.pending ≡ q.0.pending
unfolding finish
finish-pending (r, llm_error i err) = refl
finish-pending (r, finished) = ground arith

ran_rounds-nonempty :
    (d : Deps) (m : Model) (tools : List String) (n : ℕ) (r : Round)
    → stopped r.pending ≡ false
    → 1 ≤ n
    → 1 ≤ length (rounds d m tools n 0 r).0.state.tool_calls
ran_rounds-nonempty d m tools zero r h k = omega (arith, k)
ran_rounds-nonempty d m tools (suc n) r h k = rounds-nonempty d m tools n 0 r h

one_iteration : (m : Model) → 1 ≤ iterations m
one_iteration m = ground arith

-- The claim of the note, of a turn that is over.
abbrev pub WarnsOfFailure : Round × Exit → Type 0
WarnsOfFailure q =
    q.1 ≡ finished → stopped q.0.pending ≡ true → All Failed q.0.state.tool_calls → Warns q.0.output

finish-WarnsOfFailure :
    (q : Round × Exit) → 1 ≤ length q.0.state.tool_calls → WarnsOfFailure (finish q)
finish-WarnsOfFailure q l h k f =
    finish-Warns q (sym (finish-exit q) ∙ h) (sym (ap stopped (finish-pending q)) ∙ k) l
      (subst (λ s. All Failed s.tool_calls) (finish-state q) f)

-- If a turn ends because the model asks for no more tools, and every tool call of the turn has
-- failed, the answer that the user sees starts with the note that nothing was completed.
pub stage_tool_loop-Warns :
    (d : Deps) (m : Model) (tools : List String) (msgs : Option (List Message)) (output : String)
    (pending : List ToolCall) (q : Round × Exit)
    → stage_tool_loop d m tools msgs output pending ≡ some q
    → q.1 ≡ finished
    → stopped q.0.pending ≡ true
    → All Failed q.0.state.tool_calls
    → Warns q.0.output
stage_tool_loop-Warns d m tools msgs output pending q e =
    stage_of_finish WarnsOfFailure d m tools msgs output pending
      (λ h l. finish-WarnsOfFailure _ (
        ran_rounds-nonempty d m tools (iterations m) (first_round l output pending) h
          (one_iteration m)))
      q e
