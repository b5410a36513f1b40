-- ===== src/Agentcore/ToolLoop/Call/Shape.antt =====
-- Every path through the body of the inner loop of stage_tool_loop.go answers the call once.
use famclaw.Prelude.{
  ◌≡◌, ◌∙◌, refl, Bool, true, false, not, ◌&&◌, ◌||◌, String, Option, none, some, List, [], ◌∷◌,
  ◌++◌, arith, if◌then◌else◌,
}
use mathlib.Core.Path.{subst}
use famclaw.Prelude.Text.{str_eq}
use famclaw.Agentcore.Turn.{
  bare_tool_name, has_text_prefix, blocked, tool, ToolCall, ToolError, ToolResult,
}
use famclaw.Agentcore.ToolLoop.State.{
  Deps, LoopState, Reply, replied, raised, called, answer, normalize, watch_page, detect,
  ToolDecision, inject_tool_error, is_empty, offered, has_failed_call,
}
use famclaw.Agentcore.ToolLoop.Call.{
  Verdict, proceed, refused, request_approval, decide, evaluate_call, policy_gate, after_builtin,
  after_pool, run_tool, check_call, process_call, image_note, execute, gated,
}

-- One message of role `tool`, for this call, and one result, with no other change of the two lists.
pub record Answers (id : String) (s t : LoopState) : Type 0 where
  pub content : String
  pub result : ToolResult
  pub msgs_eq :
      t.msgs
      ≡ s.msgs
        ++ record {
          role = tool;
          content = content;
          content_parts = [];
          tool_calls = [];
          tool_call_id = id;
        }
          ∷ []
  pub results_eq : t.tool_calls ≡ s.tool_calls ++ result ∷ []

-- What leaves both lists as they are.
record Quiet (s t : LoopState) : Type 0 where
  msgs_eq : t.msgs ≡ s.msgs
  results_eq : t.tool_calls ≡ s.tool_calls

Answers-answer :
    (tc : ToolCall) (content output : String) (error : Option ToolError) (s : LoopState)
    → Answers tc.id s (answer tc content output error s)
unfolding answer
Answers-answer tc content output error s = record {
  content = content;
  result = record { tool_name = tc.name; args = tc.args; output = output; error = error };
  msgs_eq = refl;
  results_eq = refl;
}

-- Quiet steps before and behind.
Answers-between :
    (id : String) (s s' t' t : LoopState)
    → Quiet s s'
    → Answers id s' t'
    → Quiet t' t
    → Answers id s t
Answers-between id s s' t' t p a q = record {
  content = a.content;
  result = a.result;
  msgs_eq = rw (q.msgs_eq, a.msgs_eq, p.msgs_eq);
  results_eq = rw (q.results_eq, a.results_eq, p.results_eq);
}

Quiet-refl : (s : LoopState) → Quiet s s
Quiet-refl s = record { msgs_eq = refl; results_eq = refl }

Quiet-called : (s : LoopState) → Quiet s (called s)
Quiet-called s = record { msgs_eq = refl; results_eq = refl }

Quiet-watch_page :
    (d : Deps) (tc : ToolCall) (text : String) (s : LoopState) → Quiet s (watch_page d tc text s)
unfolding watch_page
Quiet-watch_page d tc text s = record { msgs_eq = ground arith; results_eq = ground arith }

Quiet-detect : (d : Deps) (tc : ToolCall) (s : LoopState) → Quiet s (detect d tc s)
unfolding detect
Quiet-detect d tc s = record { msgs_eq = ground arith; results_eq = ground arith }

Answers-if :
    (b : Bool) (id : String) (s t u : LoopState)
    → Answers id s t
    → Answers id s u
    → Answers id s (if b then t else u)
Answers-if true id s t u h k = h
Answers-if false id s t u h k = k

-- What the gate may return: it has answered the call, or it is quiet.
abbrev GateShape : String → LoopState → LoopState × Verdict → Type 0
GateShape id s (t, proceed) = Quiet s t
GateShape id s (t, refused) = Answers id s t

GateShape-if :
    (b : Bool) (id : String) (s : LoopState) (p q : LoopState × Verdict)
    → GateShape id s p
    → GateShape id s q
    → GateShape id s (if b then p else q)
GateShape-if true id s p q h k = h
GateShape-if false id s p q h k = k

GateShape-Quiet :
    (id : String) (s s' : LoopState) (p : LoopState × Verdict)
    → Quiet s s'
    → GateShape id s' p
    → GateShape id s p
GateShape-Quiet id s s' (t, proceed) q h = record {
  msgs_eq = h.msgs_eq ∙ q.msgs_eq;
  results_eq = h.results_eq ∙ q.results_eq;
}
GateShape-Quiet id s s' (t, refused) q h = Answers-between id s s' t t q h (Quiet-refl t)

module _ (d : Deps) (tc : ToolCall) where
  request_approval-Answers : (s : LoopState) → Answers tc.id s (request_approval d tc s)
  unfolding request_approval
  request_approval-Answers s =
      Answers-if (not d.has_approval_store) tc.id s _ _ (Answers-answer tc _ _ _ s) (
        Answers-if (not (d.approval_saved s.calls)) tc.id s _ _
          (Answers-between tc.id s (called s) _ _ (Quiet-called s)
            (Answers-answer tc _ _ _ (called s)) (Quiet-refl _))
          (Answers-between tc.id s (record s { approvals = _; calls = _ }) _ _
            (record { msgs_eq = refl; results_eq = refl }) (Answers-answer tc _ _ _ _)
            (Quiet-refl _)))

  decide-GateShape :
      (decision : ToolDecision) (s : LoopState) → GateShape tc.id s (decide d tc decision s)
  unfolding decide
  decide-GateShape decision s =
      GateShape-if (str_eq decision.action "allow") tc.id s _ _ (Quiet-refl s) (
        GateShape-if (str_eq decision.action "request_approval") tc.id s _ _
          (request_approval-Answers s)
          (GateShape-if (str_eq decision.action "pending") tc.id s _ _ (Answers-answer tc _ _ _ s)
            (Answers-answer tc _ _ _ s)))

  evaluated-GateShape :
      (o : Option ToolDecision) (s : LoopState)
      → GateShape tc.id s (elim o [
        | none ↦ (inject_tool_error tc blocked "blocked by policy" (called s), refused)
        | some decision ↦ decide d tc decision (called s)
      ])
  evaluated-GateShape none s =
      GateShape-Quiet tc.id s (called s)
        (inject_tool_error tc blocked "blocked by policy" (called s), refused) (Quiet-called s)
        (Answers-answer tc _ _ _ (called s))
  evaluated-GateShape (some decision) s =
      GateShape-Quiet tc.id s (called s) _ (Quiet-called s) (decide-GateShape decision (called s))

  evaluate_call-GateShape : (s : LoopState) → GateShape tc.id s (evaluate_call d tc s)
  unfolding evaluate_call
  evaluate_call-GateShape s =
      let bare = bare_tool_name tc.name in
      evaluated-GateShape
        (d.evaluate s.calls
          (record { tool_name = bare; args = tc.args; request_id = d.approval_id bare tc.args }))
        s

  policy_gate-GateShape : (s : LoopState) → GateShape tc.id s (policy_gate d tc s)
  unfolding policy_gate
  policy_gate-GateShape s = GateShape-if (not d.has_policy_evaluator) tc.id s _ _ (Quiet-refl s) (
      GateShape-if (not d.has_approval_store) tc.id s _ _ (evaluate_call-GateShape s) (
        GateShape-if (d.approvals_read s.calls) tc.id s _ _
          (GateShape-Quiet tc.id s (called s) _ (Quiet-called s)
            (evaluate_call-GateShape (called s)))
          (Answers-between tc.id s (called s) _ _ (Quiet-called s)
            (Answers-answer tc _ _ _ (called s)) (Quiet-refl _))))

  after_builtin-Answers :
      (reply : Reply) (s : LoopState) → Answers tc.id s (after_builtin d tc reply s)
  unfolding after_builtin
  after_builtin-Answers (raised err) s =
      Answers-between tc.id s s _ _ (Quiet-refl s) (Answers-answer tc _ _ _ s) (Quiet-detect d tc _)
  after_builtin-Answers (replied result images) s =
      let t = answer tc result result none s in
      Answers-between tc.id s s (watch_page d tc result t) _ (Quiet-refl s)
        (Answers-between tc.id s s t _ (Quiet-refl s) (Answers-answer tc result result none s)
          (Quiet-watch_page d tc result t))
        (Quiet-detect d tc _)

  after_pool-Answers : (reply : Reply) (s : LoopState) → Answers tc.id s (after_pool d tc reply s)
  unfolding after_pool
  after_pool-Answers (raised err) s =
      Answers-between tc.id s s _ _ (Quiet-refl s) (Answers-answer tc _ _ _ s) (Quiet-detect d tc _)
  after_pool-Answers (replied text []) s =
      let t = answer tc text text none s in
      Answers-between tc.id s s (detect d tc t) _ (Quiet-refl s)
        (Answers-between tc.id s s t _ (Quiet-refl s) (Answers-answer tc text text none s)
          (Quiet-detect d tc t))
        (Quiet-watch_page d tc text _)
  after_pool-Answers (replied text (i ∷ images)) s =
      let s' = record s { batch_images = s.batch_images ++ i ∷ images } in
      let note = image_note tc text in
      let t = answer tc note note none s' in
      Answers-between tc.id s s' (detect d tc t) _ (record { msgs_eq = refl; results_eq = refl })
        (Answers-between tc.id s' s' t _ (Quiet-refl s') (Answers-answer tc note note none s')
          (Quiet-detect d tc t))
        (Quiet-watch_page d tc note _)

  run_tool-Answers : (s : LoopState) → Answers tc.id s (run_tool d tc s)
  unfolding run_tool
  run_tool-Answers s =
      let q : Quiet s (execute tc s) = record { msgs_eq = refl; results_eq = refl } in
      Answers-if (has_text_prefix "builtin__" tc.name && d.has_builtin_handler) tc.id s _ _
        (Answers-between tc.id s (execute tc s) _ _ q (after_builtin-Answers _ (execute tc s))
          (Quiet-refl _))
        (Answers-if (not d.has_pool || not (d.pool_has_tool tc.name)) tc.id s _ _
          (Answers-answer tc _ _ _ s)
          (Answers-between tc.id s (execute tc s) _ _ q (after_pool-Answers _ (execute tc s))
            (Quiet-refl _)))

  gated-Answers :
      (s : LoopState) (p : LoopState × Verdict)
      → GateShape tc.id s p
      → Answers tc.id s (gated d tc p)
  gated-Answers s (t, proceed) q =
      Answers-between tc.id s t _ _ q (run_tool-Answers t) (Quiet-refl _)
  gated-Answers s (t, refused) h = h

  check_call-Answers :
      (tools : List String) (s : LoopState) → Answers tc.id s (check_call d tools tc s)
  unfolding check_call
  check_call-Answers tools s =
      let go = gated-Answers s (policy_gate d tc s) (policy_gate-GateShape s) in
      Answers-if (has_failed_call tc.name tc.args s.tool_calls) tc.id s _ _
        (Answers-answer tc _ _ _ s)
        (Answers-if (not (is_empty tools) && not (offered tc.name tools)) tc.id s _ _
          (Answers-answer tc _ _ _ s) go)

normalize-id : (tools : List String) (tc : ToolCall) → (normalize tools tc).id ≡ tc.id
unfolding normalize
normalize-id tools tc = ground arith

-- Whatever the policy, the store and the tools do, one pass through the body appends exactly one
-- message of role `tool` with the id of the call, and exactly one result, to what was there.
pub process_call-Answers :
    (d : Deps) (tools : List String) (tc : ToolCall) (s : LoopState)
    → Answers tc.id s (process_call d tools tc s)
unfolding process_call
process_call-Answers d tools tc s =
    Answers-if (s.page_changed && d.abort_queue_on_page_change) tc.id s _ _
      (Answers-answer tc _ _ _ s)
      (subst (λ i. Answers i s (check_call d tools (normalize tools tc) s)) (normalize-id tools tc)
        (check_call-Answers d (normalize tools tc) tools s))
