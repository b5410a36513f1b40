-- ===== src/Agentcore/ToolLoop/Loop/Rounds.antt =====
-- What holds of each call of a tool holds of the whole loop.
use famclaw.Prelude.{ℕ, zero, suc, ◌≡◌, refl, true, false, String, List, [], ◌∷◌, arith}
use famclaw.Agentcore.Turn.{ToolCall}
use famclaw.Agentcore.ToolLoop.State.{Deps, LoopState, called}
use famclaw.Agentcore.ToolLoop.Call.{process_call}
use famclaw.Agentcore.ToolLoop.Loop.{
  ChatReply, message, chat_failed, Model, Round, Exit, finished, llm_error, process_batch,
  settle_round, start_batch, run_batch, next_round, rounds, stopped,
}

-- What the loop does not touch between the calls.
pub record Same (s t : LoopState) : Type 0 where
  pub results_eq : t.tool_calls ≡ s.tool_calls
  pub executed_eq : t.executed ≡ s.executed
  pub approvals_eq : t.approvals ≡ s.approvals

-- A relation that holds across each call and whatever lies between them.
pub record Carried (d : Deps) (tools : List String) (R : LoopState → LoopState → Type 0)
    : Type 0 where
  pub between : (s t : LoopState) → Same s t → R s t
  pub composed : (s t u : LoopState) → R s t → R t u → R s u
  pub across : (tc : ToolCall) (s : LoopState) → R s (process_call d tools tc s)

-- By cases on the pending calls and on the answer of the model.
pub round_cases :
    (P : Round × Exit → Type 0) (pending : List ToolCall) (x : Round × Exit) (reply : ChatReply)
    (f : String → Round × Exit) (g : String → List ToolCall → Round × Exit)
    → (stopped pending ≡ true → P x)
    → ((err : String) → stopped pending ≡ false → reply ≡ chat_failed err → P (f err))
    → ((content : String) (calls : List ToolCall)
        → stopped pending ≡ false
        → reply ≡ message content calls
        → P (g content calls))
    → P (elim pending [
      | [] ↦ x
      | (_ ∷ _) ↦ elim reply [ chat_failed err ↦ f err | message content calls ↦ g content calls ]
    ])
round_cases P [] x reply f g h k l = h refl
round_cases P (tc ∷ pending) x (chat_failed err) f g h k l = k err refl refl
round_cases P (tc ∷ pending) x (message content calls) f g h k l = l content calls refl refl

pub settle_round-Same : (m : Model) (s : LoopState) → Same s (settle_round m s)
unfolding settle_round
settle_round-Same m s = record {
  results_eq = ground arith;
  executed_eq = ground arith;
  approvals_eq = ground arith;
}

pub next_round-Same :
    (s : LoopState) (content : String) (calls : List ToolCall)
    → Same s (next_round (called s) content calls).state
next_round-Same s content [] = record { results_eq = refl; executed_eq = refl; approvals_eq = refl }
next_round-Same s content (tc ∷ calls) = record {
  results_eq = refl;
  executed_eq = refl;
  approvals_eq = refl;
}

module _ (d : Deps) (tools : List String) (R : LoopState → LoopState → Type 0)
    (c : Carried d tools R) where
  process_batch-Carried :
      (calls : List ToolCall) (s : LoopState) → R s (process_batch d tools calls s)
  unfolding process_batch
  process_batch-Carried [] s =
      c.between s s (record { results_eq = refl; executed_eq = refl; approvals_eq = refl })
  process_batch-Carried (tc ∷ calls) s =
      c.composed _ _ _ (c.across tc s) (process_batch-Carried calls (process_call d tools tc s))

  run_batch-Carried : (m : Model) (r : Round) → R r.state (run_batch d m tools r)
  unfolding run_batch
  run_batch-Carried m r =
      c.composed _ _ _
        (c.composed _ _ _
          (c.between r.state (start_batch r.state)
            (record { results_eq = refl; executed_eq = refl; approvals_eq = refl }))
          (process_batch-Carried r.pending (start_batch r.state)))
        (c.between _ _ (settle_round-Same m _))

  pub rounds-Carried :
      (m : Model) (n i : ℕ) (r : Round) → R r.state (rounds d m tools n i r).0.state
  unfolding rounds
  rounds-Carried m zero i r =
      c.between _ _ (record { results_eq = refl; executed_eq = refl; approvals_eq = refl })
  rounds-Carried m (suc n) i r =
      let s = run_batch d m tools r in
      let ran = run_batch-Carried m r in
      round_cases (λ q. R r.state q.0.state) r.pending (r, finished) (m.chat s.calls s.msgs)
        (λ err. (record r { state = called s }, llm_error (suc i) err))
        (λ content calls. rounds d m tools n (suc i) (next_round (called s) content calls))
        (λ h. c.between _ _ (record { results_eq = refl; executed_eq = refl; approvals_eq = refl }))
        (λ err h e.
          c.composed _ _ _ ran
            (c.between _ _ (record { results_eq = refl; executed_eq = refl; approvals_eq = refl })))
        (λ content calls h e. c.composed _ _ _ ran (
          c.composed _ _ _ (c.between _ _ (next_round-Same s content calls))
            (rounds-Carried m n (suc i) (next_round (called s) content calls))))
