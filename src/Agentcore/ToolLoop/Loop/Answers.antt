-- ===== src/Agentcore/ToolLoop/Loop/Answers.antt =====
-- Every tool call of a batch is answered, in its place.
use famclaw.Prelude.{
  suc, ◌≡◌, refl, sym, ◌∙◌, ap, String, List, [], ◌∷◌, ◌++◌, length, append_assoc, append-nil,
}
use famclaw.Agentcore.Turn.{tool, ToolCall, Message, ToolResult}
use famclaw.Agentcore.ToolLoop.State.{Deps, LoopState}
use famclaw.Agentcore.ToolLoop.Call.{process_call}
use famclaw.Agentcore.ToolLoop.Call.Shape.{Answers, process_call-Answers}
use famclaw.Agentcore.ToolLoop.Loop.{process_batch}

-- The messages are the answers to the calls, one by one: role `tool`, the id of the call.
pub data Replies : List ToolCall → List Message → Type 0 where
  no_replies : Replies [] []
  reply :
      {tc : ToolCall} {m : Message} {calls : List ToolCall} {msgs : List Message}
      → m.role ≡ tool
      → m.tool_call_id ≡ tc.id
      → Replies calls msgs
      → Replies (tc ∷ calls) (m ∷ msgs)

pub record Answered (calls : List ToolCall) (s t : LoopState) : Type 0 where
  pub replies : List Message
  pub results : List ToolResult
  pub msgs_eq : t.msgs ≡ s.msgs ++ replies
  pub results_eq : t.tool_calls ≡ s.tool_calls ++ results
  pub in_order : Replies calls replies
  pub as_many : length results ≡ length calls

Answered-next :
    (tc : ToolCall) (calls : List ToolCall) (s t u : LoopState)
    → Answers tc.id s t
    → Answered calls t u
    → Answered (tc ∷ calls) s u
Answered-next tc calls s t u a q =
    let m : Message = record {
      role = tool;
      content = a.content;
      content_parts = [];
      tool_calls = [];
      tool_call_id = tc.id;
    } in
    record {
      replies = m ∷ q.replies;
      results = a.result ∷ q.results;
      msgs_eq =
          q.msgs_eq ∙ ap (λ l. l ++ q.replies) a.msgs_eq ∙ append_assoc s.msgs (m ∷ []) q.replies;
      results_eq =
          q.results_eq
          ∙ ap (λ l. l ++ q.results) a.results_eq
          ∙ append_assoc s.tool_calls (a.result ∷ []) q.results;
      in_order = reply refl refl q.in_order;
      as_many = ap suc q.as_many;
    }

-- A batch of tool calls appends to the conversation exactly one message of role `tool` for each
-- call, in the order of the calls and with their ids, and as many results, whatever the policy, the
-- store and the tools do: no call stays without an answer.
pub process_batch-Answered :
    (d : Deps) (tools : List String) (calls : List ToolCall) (s : LoopState)
    → Answered calls s (process_batch d tools calls s)
unfolding process_batch
process_batch-Answered d tools [] s = record {
  replies = [];
  results = [];
  msgs_eq = sym (append-nil s.msgs);
  results_eq = sym (append-nil s.tool_calls);
  in_order = no_replies;
  as_many = refl;
}
process_batch-Answered d tools (tc ∷ calls) s =
    Answered-next tc calls s _ _ (process_call-Answers d tools tc s)
      (process_batch-Answered d tools calls (process_call d tools tc s))
