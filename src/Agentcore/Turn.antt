-- ===== src/Agentcore/Turn.antt =====
-- The data of a turn (turn.go, tool.go and stage_policy_tool.go of internal/agentcore; the messages
-- of internal/llm).
use Prim.Native.String.{◌++◌}
use Prim.Native.Char.{code}
use famclaw.Prelude.{
  ◌≡◌, refl, Bool, true, false, String, Option, none, some, List, ◌==◌, if◌then◌else◌,
}
use famclaw.Compress.{Part}
use famclaw.Agentcore.Json.{Fields}

pub data Role : Type 0 where
  system user assistant tool : Role

pub record ToolCall : Type 0 where
  pub id : String
  pub name : String
  pub args : Fields

pub record Message : Type 0 where
  pub role : Role
  pub content : String
  pub content_parts : List Part
  pub tool_calls : List ToolCall
  pub tool_call_id : String

-- The errors that the loop records, and the text of one that a tool returned.
pub data ToolError : Type 0 where
  already_failed not_allowed blocked approval_requested approval_pending unknown_tool : ToolError
  tool_error : String → ToolError

pub record ToolResult : Type 0 where
  pub tool_name : String
  pub args : Fields
  pub output : String
  pub error : Option ToolError

-- `strings.CutPrefix(s, p)`, its arguments exchanged.
unfoldable pub cut_prefix : String → String → Option String
cut_prefix String.[] s = some s
cut_prefix (String.◌∷◌ p ps) String.[] = none
cut_prefix (String.◌∷◌ p ps) (String.◌∷◌ c s) = if code p == code c then cut_prefix ps s else none

abbrev pub has_text_prefix : String → String → Bool
has_text_prefix p s = elim (cut_prefix p s) [ some _ ↦ true | none ↦ false ]

-- What follows the first occurrence of `sep`.
unfoldable pub after_first : String → String → Option String
after_first sep String.[] = none
after_first sep (String.◌∷◌ c s) = elim (cut_prefix sep (String.◌∷◌ c s)) [
  | some rest ↦ some rest
  | none ↦ after_first sep s
]

-- `bareToolName`
unfoldable pub bare_tool_name : String → String
unfolding cut_prefix after_first
bare_tool_name name = elim (cut_prefix "builtin__" name) [
  | some rest ↦ rest
  | none ↦ elim (cut_prefix "mcp__" name) [
    | some rest ↦ elim (after_first "__" rest) [ some bare ↦ bare | none ↦ rest ]
    | none ↦ name
  ]
]

-- The text up to the first line feed.
unfoldable pub first_line : String → String
first_line String.[] = ""
first_line (String.◌∷◌ c s) = if code c == 10 then "" else String.◌∷◌ c (first_line s)

-- `extractFirstURL`
unfoldable pub extract_first_url : String → String
unfolding cut_prefix first_line
extract_first_url text = elim (cut_prefix "URL: " text) [ some rest ↦ first_line rest | none ↦ "" ]

-- `%q` of a name with no character to escape.
abbrev pub quote : String → String
quote s = "\"" ++ (s ++ "\"")

bare_mcp : bare_tool_name "mcp__weather__forecast" ≡ "forecast"
unfolding bare_tool_name
bare_mcp = refl

first_url : extract_first_url "URL: http://a" ≡ "http://a"
unfolding extract_first_url
first_url = refl
