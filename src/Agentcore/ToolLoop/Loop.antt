-- ===== src/Agentcore/ToolLoop/Loop.antt =====
-- The loop of stage_tool_loop.go over the rounds of a turn, without the rebuilt history
-- (`RebuildHistory` is false, its default), and what it prepends to the answer.
pub mod Rounds
pub mod Checked
pub mod Retries
pub mod Answers
pub mod Note
use Prim.Native.Char.{code}
use Prim.Native.String.{◌++◌ as ◌⧺◌}
use famclaw.Prelude.{
  ℕ, zero, suc, Bool, true, false, not, ◌&&◌, ◌||◌, String, Option, none, some, List, [], ◌∷◌, ◌++◌,
  ◌==◌, if◌then◌else◌,
}
use famclaw.Prelude.Text.{str_eq}
use famclaw.Agentcore.Turn.{Role, user, assistant, ToolCall, Message, ToolResult}
use famclaw.Agentcore.Bridge.{compress_round}
use famclaw.Agentcore.LoopDetector.{ActionLoopDetector, new_action_loop_detector}
use famclaw.Agentcore.ToolLoop.State.{Deps, LoopState, called}
use famclaw.Agentcore.ToolLoop.Call.{process_call}

-- What `ChatWithTools` returns.
pub data ChatReply : Type 0 where
  message : String → List ToolCall → ChatReply
  chat_failed : String → ChatReply

-- The rest of `ToolLoopDeps` and the client, whose answers are given by the number of the call; the
-- call that describes images has the text of its answer or its error.
pub record Model : Type 0 where
  pub chat : ℕ → List Message → ChatReply
  pub describe_image : ℕ → List String → ChatReply
  pub max_iterations : ℕ
  pub context_window : ℕ

-- The variables that go from one round to the next: `turn.Output`, `pendingCalls` and those of the
-- calls.
pub record Round : Type 0 where
  pub state : LoopState
  pub output : String
  pub pending : List ToolCall

pub data Exit : Type 0 where
  finished : Exit
  llm_error : ℕ → String → Exit

unfoldable pub process_batch : Deps → List String → List ToolCall → LoopState → LoopState
process_batch d tools [] s = s
process_batch d tools (tc ∷ calls) s = process_batch d tools calls (process_call d tools tc s)

-- Only white space; `strings.TrimSpace` trims the other spaces of Unicode as well.
unfoldable is_blank : String → Bool
is_blank String.[] = true
is_blank (String.◌∷◌ c s) =
    (code c == 32 || code c == 9 || code c == 10 || code c == 11 || code c == 12 || code c == 13)
    && is_blank s

-- `describeBatchImages`
unfoldable pub vision_note : ChatReply → String
unfolding is_blank
vision_note (chat_failed err) =
    "[vision] describe step failed (vision describe step: "
    ⧺ (err ⧺ "); screenshot dropped, not shown to you.")
vision_note (message desc _) =
    if is_blank desc
    then "[vision] describe step returned no description; screenshot dropped, not shown to you."
    else "[vision description of tool screenshot(s)]: " ⧺ desc

abbrev say : Role → String → List ToolCall → LoopState → LoopState
say role content calls s = record s {
  msgs =
      s.msgs
      ++ record {
        role = role;
        content = content;
        content_parts = [];
        tool_calls = calls;
        tool_call_id = "";
      }
        ∷ [];
}

-- The compression and the vision note, in this order.
unfoldable pub settle_round : Model → LoopState → LoopState
settle_round m s =
    let compressed = λ (t : LoopState).
      if m.context_window == 0
      then t
      else record t { msgs = compress_round m.context_window t.msgs } in
    elim s.batch_images [
      | [] ↦ compressed s
      | (i ∷ images) ↦
          say user (vision_note (m.describe_image s.calls (i ∷ images))) [] (compressed (called s))
    ]

abbrev pub start_batch : LoopState → LoopState
start_batch s = record s { page_changed = false; batch_images = [] }

-- One round, up to the call of the model.
unfoldable pub run_batch : Deps → Model → List String → Round → LoopState
run_batch d m tools r = settle_round m (process_batch d tools r.pending (start_batch r.state))

-- The round after an answer; an answer with no tool calls is not appended.
abbrev pub next_round : LoopState → String → List ToolCall → Round
next_round s content [] = record { state = s; output = content; pending = [] }
next_round s content (tc ∷ calls) = record {
  state = say assistant content (tc ∷ calls) s;
  output = content;
  pending = tc ∷ calls;
}

-- The `for` loop with `n` iterations left, `i` done.
unfoldable pub rounds : Deps → Model → List String → ℕ → ℕ → Round → Round × Exit
rounds d m tools zero i r = (r, finished)
rounds d m tools (suc n) i r = elim r.pending [
  | [] ↦ (r, finished)
  | (_ ∷ _) ↦
      let s = run_batch d m tools r in
      elim (m.chat s.calls s.msgs) [
        | chat_failed err ↦ (record r { state = called s }, llm_error (suc i) err)
        | message content calls ↦ rounds d m tools n (suc i) (next_round (called s) content calls)
      ]
]

unfoldable pub all_failed : List ToolResult → Bool
all_failed [] = true
all_failed (r ∷ results) =
    let rest = all_failed results in elim r.error [ some _ ↦ rest | none ↦ false ]

abbrev is_nil : List ToolResult → Bool
is_nil [] = true
is_nil (_ ∷ _) = false

unfoldable pub should_prepend_failure_note : List ToolResult → Bool → Bool
should_prepend_failure_note tool_calls model_stopped =
    if not model_stopped || is_nil tool_calls then false else all_failed tool_calls

abbrev pub tool_failure_note : String
tool_failure_note =
    "No action was completed — every tool call failed. Nothing below was looked up; it comes from training data, not live results."

abbrev pub stopped : List ToolCall → Bool
stopped [] = true
stopped (_ ∷ _) = false

-- What follows the loop; after an error it is not reached.
unfoldable pub finish : Round × Exit → Round × Exit
finish (r, llm_error i err) = (r, llm_error i err)
finish (r, finished) =
    if not (should_prepend_failure_note r.state.tool_calls (stopped r.pending))
    then (r, finished)
    else (
      record r {
        output =
            if str_eq r.output ""
            then tool_failure_note
            else tool_failure_note ⧺ ("\n\n" ⧺ r.output);
      },
      finished,
    )

abbrev pub initial : List Message → LoopState
initial msgs = record {
  msgs = msgs;
  tool_calls = [];
  prev_url = "";
  page_changed = false;
  batch_images = [];
  detector = new_action_loop_detector 0;
  executed = [];
  approvals = [];
  calls = 0;
}

abbrev pub first_round : List Message → String → List ToolCall → Round
first_round msgs output pending = record {
  state = say assistant output pending (initial msgs);
  output = output;
  pending = pending;
}

abbrev pub iterations : Model → ℕ
iterations m = if m.max_iterations == 0 then 25 else m.max_iterations

-- The stage, after the model's first answer `output` with the calls `pending` to the messages
-- `llm_messages`, for a turn with no earlier results; `none` where it leaves the turn as it is.
unfoldable pub stage_tool_loop :
    Deps
    → Model
    → List String
    → Option (List Message)
    → String
    → List ToolCall
    → Option (Round × Exit)
unfolding rounds finish
stage_tool_loop d m tools llm_messages output pending =
    if not d.has_pool && not d.has_builtin_handler
    then none
    else if stopped pending
    then none
    else elim llm_messages [
      | none ↦ none
      | some msgs ↦
          some (finish (rounds d m tools (iterations m) 0 (first_round msgs output pending)))
    ]
