-- ===== src/Agentcore/Bridge.antt =====
-- The bridge between the messages of internal/llm and those of internal/compress
-- (internal/agentcore/compress_bridge.go).
pub mod Ordered
use famclaw.Prelude.{
  ℕ, Bool, true, false, ◌&&◌, String, Option, none, some, List, [], ◌∷◌, if◌then◌else◌,
}
use famclaw.Prelude.Text.{str_eq}
use famclaw.Compress as C
use famclaw.Compress.{compress, simple_estimate}
use famclaw.Agentcore.Turn.{Role, system, user, assistant, tool, Message}

abbrev pub role_name : Role → String
role_name system = "system"
role_name user = "user"
role_name assistant = "assistant"
role_name tool = "tool"

-- A role of the source is a string: of the four that the program writes, the one with the name.
abbrev role_of : String → Role
role_of name =
    if str_eq name "system"
    then system
    else if str_eq name "user"
    then user
    else if str_eq name "assistant"
    then assistant
    else tool

abbrev pub is_tool : Role → Bool
is_tool tool = true
is_tool _ = false

abbrev pub to_compress : Message → C.Message
to_compress m = record {
  role = role_name m.role;
  content = m.content;
  content_parts = m.content_parts;
  pinned = false;
  prunable = is_tool m.role;
}

-- `llmToCompress`, with the indexes of the tool messages for `prunableIdx`, as the tool loop calls
-- it.
unfoldable pub llm_to_compress : List Message → List C.Message
llm_to_compress [] = []
llm_to_compress (m ∷ msgs) = to_compress m ∷ llm_to_compress msgs

unfoldable pub matches : C.Message → Message → Bool
matches c m = str_eq (role_name m.role) c.role && str_eq m.content c.content

-- The inner loop: the first match from here on, and what follows it.
unfoldable pub find_match : C.Message → List Message → Option (Message × List Message)
find_match c [] = none
find_match c (m ∷ orig) = if matches c m then some (m, orig) else find_match c orig

unfoldable pub compress_to_llm : List C.Message → List Message → List Message
compress_to_llm [] orig = []
compress_to_llm (c ∷ cs) orig = elim (find_match c orig) [
  | some (m, rest) ↦ m ∷ compress_to_llm cs rest
  | none ↦
      record {
        role = role_of c.role;
        content = c.content;
        content_parts = [];
        tool_calls = [];
        tool_call_id = "";
      }
      ∷ compress_to_llm cs []
]

-- The compression of one round of the tool loop.
unfoldable pub compress_round : ℕ → List Message → List Message
compress_round context_window msgs =
    compress_to_llm (compress simple_estimate context_window 0 (llm_to_compress msgs)) msgs
