-- ===== src/Scenarios/Tools.antt =====
-- A turn in which the model asks twice for a page that cannot be read, then gives up.
use famclaw.Prelude.{
  ◌≡◌, refl, true, false, String, some, List, [], ◌∷◌, ◌==◌, if◌then◌else◌, All, map,
}
use famclaw.Agentcore.Json.{
  Fields, end, field, text, deep_equal, equal_values, equal_lists, equal_fields,
}
use famclaw.Agentcore.Turn.{user, ToolCall, Message, cut_prefix, after_first, bare_tool_name}
use famclaw.Agentcore.ToolLoop.State.{
  Deps, replied, raised, normalize, has_failed_call, offered, answer, watch_page, detect,
}
use famclaw.Agentcore.ToolLoop.Call.{
  process_call, run_tool, after_builtin, check_call, policy_gate, evaluate_call, decide,
}
use famclaw.Agentcore.ToolLoop.Call.Gate.{Runs, process_call-Runs}
use famclaw.Agentcore.ToolLoop.Loop.{
  message, Model, Round, Exit, finished, process_batch, settle_round, run_batch, rounds, finish,
  stopped, first_round, initial, stage_tool_loop, all_failed, should_prepend_failure_note,
}
use famclaw.Agentcore.ToolLoop.Loop.Checked.{Checked, stage_tool_loop-Checked}
use famclaw.Agentcore.ToolLoop.Loop.Answers.{Answered, process_batch-Answered}
use famclaw.Agentcore.ToolLoop.Loop.Note.{Failed, Warns, stage_tool_loop-Warns}

abbrev deps : Deps
deps = record {
  has_builtin_handler = true;
  builtin_handler = λ n name args. raised "no such host";
  has_pool = false;
  pool_has_tool = λ name. false;
  pool_call = λ n name args. replied "" [];
  has_policy_evaluator = true;
  evaluate = λ n input. some (record { action = "allow"; reason = "" });
  has_approval_store = false;
  approvals_read = λ n. true;
  approval_saved = λ n. true;
  abort_queue_on_page_change = false;
  has_detector = false;
  approval_id = λ name args. "a1";
  action_hash = λ name args. name;
}

abbrev args : Fields
args = field "url" (text "http://a") end

abbrev fetch : ToolCall
fetch = record { id = "c1"; name = "web_fetch"; args = args }

abbrev again : ToolCall
again = record { id = "c2"; name = "builtin__web_fetch"; args = args }

-- The first answer asks again; the second is final.
abbrev model : Model
model = record {
  chat = λ n msgs. if n == 2 then message "Again." (again ∷ []) else message "Done." [];
  describe_image = λ n images. message "" [];
  max_iterations = 0;
  context_window = 0;
}

abbrev tools : List String
tools = "builtin__web_fetch" ∷ []

abbrev question : List Message
question =
    record {
      role = user;
      content = "What does http://a say?";
      content_parts = [];
      tool_calls = [];
      tool_call_id = "";
    }
    ∷ []

unfoldable turn : Round × Exit
unfolding finish rounds
turn = finish (rounds deps model tools 25 0 (first_round question "Wait." (fetch ∷ [])))

turn_eq : stage_tool_loop deps model tools (some question) "Wait." (fetch ∷ []) ≡ some turn
unfolding stage_tool_loop turn
turn_eq = refl

after_turn : (turn.1 ≡ finished) × (stopped turn.0.pending ≡ true)
unfolding turn finish rounds run_batch process_batch process_call check_call run_tool policy_gate
    evaluate_call decide after_builtin settle_round answer watch_page detect has_failed_call offered
    normalize deep_equal equal_values equal_lists equal_fields cut_prefix after_first bare_tool_name
    all_failed should_prepend_failure_note
after_turn = (refl, refl)

All-Failed : All Failed turn.0.state.tool_calls
unfolding turn finish rounds run_batch process_batch process_call check_call run_tool policy_gate
    evaluate_call decide after_builtin settle_round answer watch_page detect has_failed_call offered
    normalize deep_equal equal_values equal_lists equal_fields cut_prefix after_first bare_tool_name
    all_failed should_prepend_failure_note
All-Failed = (λ e. cc, (λ e. cc, tt))

-- The second call is not executed: it had failed, under the name that it has in the tool list.
executed_once : map (λ tc. tc.id) turn.0.state.executed ≡ "c1" ∷ []
unfolding turn finish rounds run_batch process_batch process_call check_call run_tool policy_gate
    evaluate_call decide after_builtin settle_round answer watch_page detect has_failed_call offered
    normalize deep_equal equal_values equal_lists equal_fields cut_prefix after_first bare_tool_name
    all_failed should_prepend_failure_note
executed_once = refl

process_call-Runs_example :
    Runs deps tools
      (normalize tools fetch)
      (initial question)
      (process_call deps tools fetch (initial question))
process_call-Runs_example = process_call-Runs deps tools fetch (initial question)

process_batch-Answered_example :
    Answered
      (fetch ∷ again ∷ [])
      (initial question)
      (process_batch deps tools (fetch ∷ again ∷ []) (initial question))
process_batch-Answered_example =
    process_batch-Answered deps tools (fetch ∷ again ∷ []) (initial question)

stage_tool_loop-Checked_example : All (Checked deps tools) turn.0.state.executed
stage_tool_loop-Checked_example =
    stage_tool_loop-Checked deps model tools (some question) "Wait." (fetch ∷ []) turn turn_eq

stage_tool_loop-Warns_example : Warns turn.0.output
stage_tool_loop-Warns_example =
    stage_tool_loop-Warns deps model tools (some question) "Wait." (fetch ∷ []) turn turn_eq
      after_turn.0 after_turn.1 All-Failed
