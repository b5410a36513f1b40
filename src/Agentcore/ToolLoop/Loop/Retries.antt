-- ===== src/Agentcore/ToolLoop/Loop/Retries.antt =====
-- The guard against repeated failures, over the rounds of a turn.
use famclaw.Prelude.{
  ℕ, ◌≡◌, sym, ◌∙◌, ap, true, String, List, [], ◌∷◌, ◌++◌, arith, All, All-append, append_assoc,
  append-nil,
}
use famclaw.Agentcore.Json.{Fields}
use famclaw.Agentcore.Turn.{ToolCall, ToolResult}
use famclaw.Agentcore.ToolLoop.State.{Deps, LoopState, has_failed_call}
use famclaw.Agentcore.ToolLoop.Call.Shape.{process_call-Answers}
use famclaw.Agentcore.ToolLoop.Call.Gate.{Runs, ran_none, ran, process_call-Runs}
use famclaw.Agentcore.ToolLoop.Loop.{Model, Round, rounds}
use famclaw.Agentcore.ToolLoop.Loop.Rounds.{Same, Carried, rounds-Carried}

-- A failed call stays one, whatever results come later.
pub has_failed_call-append :
    (name : String) (args : Fields) (results more : List ToolResult)
    → has_failed_call name args results ≡ true
    → has_failed_call name args (results ++ more) ≡ true
unfolding has_failed_call
has_failed_call-append name args [] more h = cc
has_failed_call-append name args (r ∷ results) more h =
    ground (arith, has_failed_call-append name args results more)

-- Another name or other arguments.
abbrev pub Differs : String → Fields → ToolCall → Type 0
Differs name args tc = ¬ ((tc.name ≡ name) × (tc.args ≡ args))

-- The results and the executed calls only grow, and if the call of `name` with `args` had failed,
-- none of the added executed calls is this one.
pub record RetriesNone (name : String) (args : Fields) (s t : LoopState) : Type 0 where
  pub new : List ToolCall
  pub results : List ToolResult
  pub results_eq : t.tool_calls ≡ s.tool_calls ++ results
  pub executed_eq : t.executed ≡ new ++ s.executed
  pub differs : has_failed_call name args s.tool_calls ≡ true → All (Differs name args) new

module _ (name : String) (args : Fields) where
  RetriesNone-Same : (s t : LoopState) → Same s t → RetriesNone name args s t
  RetriesNone-Same s t q = record {
    new = [];
    results = [];
    results_eq = q.results_eq ∙ sym (append-nil _);
    executed_eq = q.executed_eq;
    differs = λ h. tt;
  }

  RetriesNone-composed :
      (s t u : LoopState)
      → RetriesNone name args s t
      → RetriesNone name args t u
      → RetriesNone name args s u
  RetriesNone-composed s t u p q = record {
    new = q.new ++ p.new;
    results = p.results ++ q.results;
    results_eq =
        q.results_eq
        ∙ ap (λ l. l ++ q.results) p.results_eq
        ∙ append_assoc s.tool_calls p.results q.results;
    executed_eq =
        q.executed_eq
        ∙ ap (λ l. q.new ++ l) p.executed_eq
        ∙ sym (append_assoc q.new p.new s.executed);
    differs = λ h.
        All-append _ q.new p.new
          (q.differs (
            ap (has_failed_call name args) p.results_eq
            ∙ has_failed_call-append name args s.tool_calls p.results h))
          (p.differs h);
  }

  RetriesNone-call :
      (d : Deps) (tools : List String) (tc : ToolCall) (s t : LoopState) (r : ToolResult)
      → t.tool_calls ≡ s.tool_calls ++ r ∷ []
      → Runs d tools tc s t
      → RetriesNone name args s t
  RetriesNone-call d tools tc s t r e (ran_none x) = record {
    new = [];
    results = r ∷ [];
    results_eq = e;
    executed_eq = x;
    differs = λ h. tt;
  }
  RetriesNone-call d tools tc s t r e (ran x c) = record {
    new = tc ∷ [];
    results = r ∷ [];
    results_eq = e;
    executed_eq = x;
    differs = λ h. (
      λ same.
          let failed : has_failed_call tc.name tc.args s.tool_calls ≡ true =
            rw (same.0, same.1) h in
          cc,
      tt,
    );
  }

  retries-Carried : (d : Deps) (tools : List String) → Carried d tools (RetriesNone name args)
  retries-Carried d tools = record {
    between = RetriesNone-Same;
    composed = RetriesNone-composed;
    across = λ tc s.
        let a = process_call-Answers d tools tc s in
        RetriesNone-call d tools _ s _ a.result a.results_eq (process_call-Runs d tools tc s);
  }

pub rounds-RetriesNone :
    (name : String) (args : Fields) (d : Deps) (m : Model) (tools : List String) (n i : ℕ)
    (r : Round)
    → RetriesNone name args r.state (rounds d m tools n i r).0.state
rounds-RetriesNone name args d m tools n i r =
    rounds-Carried d tools _ (retries-Carried name args d tools) m n i r
