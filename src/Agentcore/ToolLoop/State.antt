-- ===== src/Agentcore/ToolLoop/State.antt =====
-- What the inner loop of stage_tool_loop.go is given, its variables, and its helpers.
use Prim.Native.String.{◌++◌ as ◌⧺◌}
use famclaw.Prelude.{
  ℕ, suc, Bool, true, false, not, ◌&&◌, ◌||◌, String, Option, none, some, List, [], ◌∷◌, ◌++◌,
  if◌then◌else◌,
}
use famclaw.Prelude.Text.{str_eq}
use famclaw.Agentcore.Json.{Fields, deep_equal, text_arg}
use famclaw.Agentcore.Turn.{
  tool, ToolCall, Message, ToolError, ToolResult, has_text_prefix, extract_first_url,
}
use famclaw.Agentcore.LoopDetector.{ActionLoopDetector, push}

-- `policy.ToolDecision`, without the field that is derived.
pub record ToolDecision : Type 0 where
  pub action : String
  pub reason : String

-- What the policy is asked (`policy.ToolCallInput`); the user and the approvals are the
-- environment's.
pub record ToolCallInput : Type 0 where
  pub tool_name : String
  pub args : Fields
  pub request_id : String

-- `store.Approval`, without the fields of the user.
pub record Approval : Type 0 where
  pub id : String
  pub category : String
  pub query_text : String

-- What a tool returned: a text with the images of its result, or an error.
pub data Reply : Type 0 where
  replied : String → List String → Reply
  raised : String → Reply

-- What the loop is given (`ToolLoopDeps`) and what it calls; each outcome may differ from call to
-- call, and is given by the number of the call.
pub record Deps : Type 0 where
  pub has_builtin_handler : Bool
  pub builtin_handler : ℕ → String → Fields → Reply
  pub has_pool : Bool
  pub pool_has_tool : String → Bool
  pub pool_call : ℕ → String → Fields → Reply
  pub has_policy_evaluator : Bool
  pub evaluate : ℕ → ToolCallInput → Option ToolDecision
  pub has_approval_store : Bool
  pub approvals_read : ℕ → Bool
  pub approval_saved : ℕ → Bool
  pub abort_queue_on_page_change : Bool
  pub has_detector : Bool
  -- `toolApprovalID` and the hash of `Push`, from the standard library's SHA-256 and JSON
  pub approval_id : String → Fields → String
  pub action_hash : String → Fields → String

-- The variables of the loop; `executed` and `approvals` are the calls that were made of the
-- tools and of `UpsertApproval`.
pub record LoopState : Type 0 where
  pub msgs : List Message
  pub tool_calls : List ToolResult
  pub prev_url : String
  pub page_changed : Bool
  pub batch_images : List String
  pub detector : ActionLoopDetector
  pub executed : List ToolCall
  pub approvals : List Approval
  pub calls : ℕ

abbrev pub called : LoopState → LoopState
called s = record s { calls = suc s.calls }

-- The tool message and the result that each path through the body appends.
unfoldable pub answer : ToolCall → String → String → Option ToolError → LoopState → LoopState
answer tc content output error s = record s {
  msgs =
      s.msgs
      ++ record {
        role = tool;
        content = content;
        content_parts = [];
        tool_calls = [];
        tool_call_id = tc.id;
      }
        ∷ [];
  tool_calls =
      s.tool_calls
      ++ record { tool_name = tc.name; args = tc.args; output = output; error = error } ∷ [];
}

-- `injectToolError`
abbrev pub inject_tool_error : ToolCall → ToolError → String → LoopState → LoopState
inject_tool_error tc err reason = answer tc ("Error: " ⧺ reason) "" (some err)

unfoldable pub has_failed_call : String → Fields → List ToolResult → Bool
has_failed_call name args [] = false
has_failed_call name args (r ∷ results) =
    let rest = has_failed_call name args results in
    elim r.error [
      | none ↦ rest
      | some _ ↦ if str_eq r.tool_name name && deep_equal r.args args then true else rest
    ]

unfoldable pub offered : String → List String → Bool
offered name [] = false
offered name (t ∷ tools) = str_eq t name || offered name tools

abbrev pub is_empty : List String → Bool
is_empty [] = true
is_empty (_ ∷ _) = false

abbrev pub is_qualified : String → Bool
is_qualified name = has_text_prefix "builtin__" name || has_text_prefix "mcp__" name

-- A bare name becomes the builtin's, if that is offered.
unfoldable pub normalize : List String → ToolCall → ToolCall
normalize tools tc =
    if not (is_qualified tc.name) && offered ("builtin__" ⧺ tc.name) tools
    then record tc { name = "builtin__" ⧺ tc.name }
    else tc

unfoldable pub approval_description : String → Fields → String
approval_description tool_name args =
    tool_name
    ⧺ (" - " ⧺ (elim (text_arg "path" args) [
      | some path ↦ if str_eq path "" then "no path specified" else "path " ⧺ path
      | none ↦ "no path specified"
    ]))

abbrev pub is_mutating_browser_action : String → Bool
is_mutating_browser_action name =
    str_eq name "builtin__browser_navigate"
    || str_eq name "builtin__browser_click"
    || str_eq name "builtin__browser_fill"
    || str_eq name "builtin__browser_select"
    || str_eq name "builtin__browser_press_key"

-- The two runs of lines that watch the URL of a page.
unfoldable pub watch_page : Deps → ToolCall → String → LoopState → LoopState
watch_page d tc text s =
    if not (d.abort_queue_on_page_change && is_mutating_browser_action tc.name)
    then s
    else (let u = extract_first_url text in
        if str_eq u "" then s else record s {
          page_changed =
              if not (str_eq s.prev_url "") && not (str_eq u s.prev_url)
              then true
              else s.page_changed;
          prev_url = u;
        })

unfoldable pub detect : Deps → ToolCall → LoopState → LoopState
detect d tc s =
    if d.has_detector
    then record s { detector = push (d.action_hash tc.name tc.args) s.detector }
    else s
