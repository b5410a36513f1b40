-- ===== src/Agentcore/ToolLoop/Call.antt =====
-- One tool call of a batch: the body of the inner loop of stage_tool_loop.go.
pub mod Shape
pub mod Gate
use Prim.Native.String.{◌++◌ as ◌⧺◌}
use famclaw.Prelude.{
  ℕ, suc, Bool, true, false, not, ◌&&◌, ◌||◌, String, Option, none, some, List, [], ◌∷◌, ◌++◌,
  if◌then◌else◌,
}
use famclaw.Prelude.Text.{str_eq}
use famclaw.Agentcore.Json.{Fields, deep_equal, text_arg}
use famclaw.Agentcore.Turn.{
  Role, tool, ToolCall, Message, ToolError, already_failed, not_allowed, blocked,
  approval_requested, approval_pending, unknown_tool, tool_error, ToolResult, has_text_prefix,
  bare_tool_name, extract_first_url, quote,
}
use famclaw.Agentcore.LoopDetector.{ActionLoopDetector, push}
use famclaw.Agentcore.ToolLoop.State.{
  ToolDecision, ToolCallInput, Approval, Reply, Deps, LoopState, called, answer, inject_tool_error,
  has_failed_call, offered, is_empty, is_qualified, normalize, approval_description,
  is_mutating_browser_action, watch_page, detect, replied, raised,
}

-- The gate lets the call pass, or has answered it.
pub data Verdict : Type 0 where
  proceed refused : Verdict

-- `case "request_approval"`
unfoldable pub request_approval : Deps → ToolCall → LoopState → LoopState
unfolding approval_description
request_approval d tc s =
    let bare = bare_tool_name tc.name in
    if not d.has_approval_store
    then inject_tool_error tc blocked "approval unavailable" s
    else if not (d.approval_saved s.calls)
    then inject_tool_error tc blocked "approval unavailable" (called s)
    else answer tc "I'm asking a parent for permission to do this. They'll decide soon." ""
        (some approval_requested)
        (record s {
          approvals =
              record {
                id = d.approval_id bare tc.args;
                category = "tool:" ⧺ bare;
                query_text = approval_description bare tc.args;
              }
              ∷ s.approvals;
          calls = suc s.calls;
        })

-- The `switch` on the action of a decision.
unfoldable pub decide : Deps → ToolCall → ToolDecision → LoopState → LoopState × Verdict
unfolding request_approval
decide d tc decision s =
    if str_eq decision.action "allow"
    then (s, proceed)
    else if str_eq decision.action "request_approval"
    then (request_approval d tc s, refused)
    else if str_eq decision.action "pending"
    then (
      answer tc "A parent has been notified about this request. I'll try again once they decide." ""
          (some approval_pending) s,
      refused,
    )
    else (
      inject_tool_error tc blocked
          (if str_eq decision.reason "" then "blocked by policy" else decision.reason) s,
      refused,
    )

unfoldable pub evaluate_call : Deps → ToolCall → LoopState → LoopState × Verdict
unfolding decide
evaluate_call d tc s =
    let bare = bare_tool_name tc.name in
    let input : ToolCallInput = record {
      tool_name = bare;
      args = tc.args;
      request_id = d.approval_id bare tc.args;
    } in
    elim (d.evaluate s.calls input) [
      | none ↦ (inject_tool_error tc blocked "blocked by policy" (called s), refused)
      | some decision ↦ decide d tc decision (called s)
    ]

-- The OPA tool_policy gate.
unfoldable pub policy_gate : Deps → ToolCall → LoopState → LoopState × Verdict
policy_gate d tc s =
    if not d.has_policy_evaluator
    then (s, proceed)
    else if not d.has_approval_store
    then evaluate_call d tc s
    else if d.approvals_read s.calls
    then evaluate_call d tc (called s)
    else (inject_tool_error tc blocked "approval unavailable" (called s), refused)

-- The call of a tool, counted.
abbrev pub execute : ToolCall → LoopState → LoopState
execute tc s = record s { executed = tc ∷ s.executed; calls = suc s.calls }

unfoldable pub after_builtin : Deps → ToolCall → Reply → LoopState → LoopState
after_builtin d tc (raised err) s =
    detect d tc (answer tc ("Error: " ⧺ err) "" (some (tool_error err)) s)
after_builtin d tc (replied result images) s =
    detect d tc (watch_page d tc result (answer tc result result none s))

-- The text that goes on when a result holds images.
abbrev pub image_note : ToolCall → String → String
image_note tc text =
    let note = "[screenshot returned by " ⧺ (tc.name ⧺ "; vision description follows]") in
    if str_eq text "" then note else note ⧺ (": " ⧺ text)

unfoldable pub after_pool : Deps → ToolCall → Reply → LoopState → LoopState
after_pool d tc (raised err) s =
    detect d tc
      (answer tc ("Error calling " ⧺ (tc.name ⧺ (": " ⧺ err))) "" (some (tool_error err)) s)
after_pool d tc (replied text []) s =
    watch_page d tc text (detect d tc (answer tc text text none s))
after_pool d tc (replied text (i ∷ images)) s =
    let note = image_note tc text in
    watch_page d tc note (
      detect d tc
        (answer tc note note none (record s { batch_images = s.batch_images ++ i ∷ images })))

-- The dispatch to the handler or the pool.
unfoldable pub run_tool : Deps → ToolCall → LoopState → LoopState
run_tool d tc s =
    if has_text_prefix "builtin__" tc.name && d.has_builtin_handler
    then after_builtin d tc (d.builtin_handler s.calls tc.name tc.args) (execute tc s)
    else if not d.has_pool || not (d.pool_has_tool tc.name)
    then answer tc ("Error: unknown tool " ⧺ quote tc.name) "" (some unknown_tool) s
    else after_pool d tc (d.pool_call s.calls tc.name tc.args) (execute tc s)

abbrev skip_msg : String
skip_msg = "[skipped: page changed earlier in batch — re-evaluate]"

abbrev pub gated : Deps → ToolCall → LoopState × Verdict → LoopState
gated d tc (s, proceed) = run_tool d tc s
gated d tc (s, refused) = s

-- The body, for a call whose name is normalized and whose page has not changed.
unfoldable pub check_call : Deps → List String → ToolCall → LoopState → LoopState
unfolding run_tool
check_call d tools tc s =
    if has_failed_call tc.name tc.args s.tool_calls
    then inject_tool_error tc already_failed
        "this exact tool call already failed earlier in this turn; try a different approach instead of repeating it"
        s
    else if not (is_empty tools) && not (offered tc.name tools)
    then answer tc ("Error: tool " ⧺ (quote tc.name ⧺ " not available")) "" (some not_allowed) s
    else gated d tc (policy_gate d tc s)

unfoldable pub process_call : Deps → List String → ToolCall → LoopState → LoopState
process_call d tools tc s =
    if s.page_changed && d.abort_queue_on_page_change
    then answer tc skip_msg skip_msg none s
    else check_call d tools (normalize tools tc) s
