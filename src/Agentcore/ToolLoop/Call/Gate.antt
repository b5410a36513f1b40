-- ===== src/Agentcore/ToolLoop/Call/Gate.antt =====
-- A tool runs only after every check of stage_tool_loop.go.
use famclaw.Prelude.{
  ℕ, ◌≡◌, refl, ◌∙◌, ap, ◌⊎◌, inl, inr, Bool, true, false, not, ◌&&◌, String, Option, none, some,
  List, [], ◌∷◌, arith, if◌then◌else◌, Bool-cases,
}
use famclaw.Prelude.Text.{str_eq, eq_iff}
use famclaw.Agentcore.Turn.{ToolCall, blocked, bare_tool_name}
use famclaw.Agentcore.ToolLoop.State.{
  Deps, LoopState, Reply, replied, raised, called, answer, inject_tool_error, has_failed_call,
  offered, is_empty, normalize, watch_page, detect, ToolDecision, ToolCallInput,
}
use famclaw.Agentcore.ToolLoop.Call.{
  Verdict, proceed, refused, request_approval, decide, evaluate_call, policy_gate, execute,
  after_builtin, after_pool, run_tool, gated, check_call, process_call,
}

abbrev input_of : Deps → ToolCall → ToolCallInput
input_of d tc =
    let bare = bare_tool_name tc.name in
    record { tool_name = bare; args = tc.args; request_id = d.approval_id bare tc.args }

-- There is no policy, or it was asked about this very call and said "allow".
pub data Permitted (d : Deps) (tc : ToolCall) : Type 0 where
  no_policy : d.has_policy_evaluator ≡ false → Permitted d tc
  allowed :
      (n : ℕ) (decision : ToolDecision)
      → d.evaluate n (input_of d tc) ≡ some decision
      → decision.action ≡ "allow"
      → Permitted d tc

-- The gate runs no tool, and lets pass only what is permitted.
record GateOpens (d : Deps) (tc : ToolCall) (s : LoopState) (p : LoopState × Verdict) : Type 0 where
  runs_none : p.0.executed ≡ s.executed
  permits : p.1 ≡ proceed → Permitted d tc

GateOpens-if :
    (b : Bool) (d : Deps) (tc : ToolCall) (s : LoopState) (p q : LoopState × Verdict)
    → (b ≡ true → GateOpens d tc s p)
    → GateOpens d tc s q
    → GateOpens d tc s (if b then p else q)
GateOpens-if true d tc s p q h k = h refl
GateOpens-if false d tc s p q h k = k

module _ (d : Deps) (tc : ToolCall) where
  executed-request_approval : (s : LoopState) → (request_approval d tc s).executed ≡ s.executed
  unfolding request_approval answer
  executed-request_approval s = ground arith

  decide-GateOpens :
      (n : ℕ) (decision : ToolDecision) (s : LoopState)
      → d.evaluate n (input_of d tc) ≡ some decision
      → GateOpens d tc s (decide d tc decision s)
  unfolding decide answer
  decide-GateOpens n decision s e =
      GateOpens-if (str_eq decision.action "allow") d tc s _ _
        (λ a. record {
          runs_none = refl;
          permits = λ h. allowed n decision e ((eq_iff decision.action "allow").0 a);
        })
        (GateOpens-if (str_eq decision.action "request_approval") d tc s _ _
          (λ a. record { runs_none = executed-request_approval s; permits = λ h. cc })
          (GateOpens-if (str_eq decision.action "pending") d tc s _ _
            (λ a. record { runs_none = refl; permits = λ h. cc })
            (record { runs_none = refl; permits = λ h. cc })))

  evaluated-GateOpens :
      (n : ℕ) (o : Option ToolDecision) (s : LoopState)
      → d.evaluate n (input_of d tc) ≡ o
      → GateOpens d tc s (elim o [
        | none ↦ (inject_tool_error tc blocked "blocked by policy" (called s), refused)
        | some decision ↦ decide d tc decision (called s)
      ])
  unfolding answer
  evaluated-GateOpens n none s e = record { runs_none = refl; permits = λ h. cc }
  evaluated-GateOpens n (some decision) s e =
      let g = decide-GateOpens n decision (called s) e in
      record { runs_none = g.runs_none; permits = g.permits }

  evaluate_call-GateOpens : (s : LoopState) → GateOpens d tc s (evaluate_call d tc s)
  unfolding evaluate_call
  evaluate_call-GateOpens s =
      evaluated-GateOpens s.calls (d.evaluate s.calls (input_of d tc)) s refl

  policy_gate-GateOpens : (s : LoopState) → GateOpens d tc s (policy_gate d tc s)
  unfolding policy_gate answer
  policy_gate-GateOpens s =
      GateOpens-if (not d.has_policy_evaluator) d tc s _ _
        (λ h. record { runs_none = refl; permits = λ p. no_policy (ground arith) })
        (GateOpens-if (not d.has_approval_store) d tc s _ _ (λ h. evaluate_call-GateOpens s)
          (GateOpens-if (d.approvals_read s.calls) d tc s _ _
            (λ h.
              let g = evaluate_call-GateOpens (called s) in
              record { runs_none = g.runs_none; permits = g.permits })
            (record { runs_none = refl; permits = λ h. cc })))

  executed-after_builtin :
      (reply : Reply) (s : LoopState) → (after_builtin d tc reply s).executed ≡ s.executed
  unfolding after_builtin answer detect watch_page
  executed-after_builtin (raised err) s = ground arith
  executed-after_builtin (replied text images) s = ground arith

  executed-after_pool :
      (reply : Reply) (s : LoopState) → (after_pool d tc reply s).executed ≡ s.executed
  unfolding after_pool answer detect watch_page
  executed-after_pool (raised err) s = ground arith
  executed-after_pool (replied text []) s = ground arith
  executed-after_pool (replied text (i ∷ images)) s = ground arith

  executed-run_tool :
      (s : LoopState)
      → ((run_tool d tc s).executed ≡ s.executed) ⊎ ((run_tool d tc s).executed ≡ tc ∷ s.executed)
  unfolding run_tool answer
  executed-run_tool s = ground (
    arith,
    executed-after_builtin (d.builtin_handler s.calls tc.name tc.args) (execute tc s),
    executed-after_pool (d.pool_call s.calls tc.name tc.args) (execute tc s),
  )

-- Either no tool ran, or the call did, once, and every check had passed.
pub record RanChecked (d : Deps) (tools : List String) (tc : ToolCall) (s : LoopState)
    : Type 0 where
  pub not_failed : has_failed_call tc.name tc.args s.tool_calls ≡ false
  pub offers : (tools ≡ []) ⊎ (offered tc.name tools ≡ true)
  pub permits : Permitted d tc

-- What one pass may do to the list of the executed calls.
pub data Runs (d : Deps) (tools : List String) (tc : ToolCall) (s t : LoopState) : Type 0 where
  ran_none : t.executed ≡ s.executed → Runs d tools tc s t
  ran : t.executed ≡ tc ∷ s.executed → RanChecked d tools tc s → Runs d tools tc s t

Runs-if :
    (b : Bool) (d : Deps) (tools : List String) (tc : ToolCall) (s t u : LoopState)
    → (b ≡ true → Runs d tools tc s t)
    → (b ≡ false → Runs d tools tc s u)
    → Runs d tools tc s (if b then t else u)
Runs-if true d tools tc s t u h k = h refl
Runs-if false d tools tc s t u h k = k refl

gated-Runs :
    (d : Deps) (tools : List String) (tc : ToolCall) (s : LoopState) (p : LoopState × Verdict)
    → GateOpens d tc s p
    → has_failed_call tc.name tc.args s.tool_calls ≡ false
    → (tools ≡ []) ⊎ (offered tc.name tools ≡ true)
    → Runs d tools tc s (gated d tc p)
gated-Runs d tools tc s (t, refused) g f o = ran_none g.runs_none
gated-Runs d tools tc s (t, proceed) g f o = elim (executed-run_tool d tc t) [
  | inl e ↦ ran_none (e ∙ g.runs_none)
  | inr e ↦
      ran (e ∙ ap (λ l. tc ∷ l) g.runs_none)
        (record { not_failed = f; offers = o; permits = g.permits refl })
]

offers_if :
    (tools : List String) (name : String)
    → (not (is_empty tools) && not (offered name tools)) ≡ false
    → (tools ≡ []) ⊎ (offered name tools ≡ true)
offers_if [] name e = inl refl
offers_if (t ∷ tools) name e = elim (Bool-cases (offered name (t ∷ tools))) [
  | inl h ↦ inr h
  | inr h ↦ ground arith
]

check_call-Runs :
    (d : Deps) (tools : List String) (tc : ToolCall) (s : LoopState)
    → Runs d tools tc s (check_call d tools tc s)
unfolding check_call answer
check_call-Runs d tools tc s =
    Runs-if (has_failed_call tc.name tc.args s.tool_calls) d tools tc s _ _ (λ h. ran_none refl)
      (λ f.
        Runs-if (not (is_empty tools) && not (offered tc.name tools)) d tools tc s _ _
          (λ h. ran_none refl)
          (λ o.
            gated-Runs d tools tc s (policy_gate d tc s) (policy_gate-GateOpens d tc s) f
              (offers_if tools tc.name o)))

-- One pass through the body leaves the executed calls as they were, or adds the call itself, under
-- its normalized name, once. It adds it only if no call with this name and these arguments has
-- failed in this turn, the tool is offered (or the turn has no tools at all), and there is no
-- policy, or the policy, asked about this very call, has answered `allow`.
pub process_call-Runs :
    (d : Deps) (tools : List String) (tc : ToolCall) (s : LoopState)
    → Runs d tools (normalize tools tc) s (process_call d tools tc s)
unfolding process_call answer
process_call-Runs d tools tc s =
    Runs-if (s.page_changed && d.abort_queue_on_page_change) d tools (normalize tools tc) s _ _
      (λ h. ran_none refl) (λ h. check_call-Runs d tools (normalize tools tc) s)
