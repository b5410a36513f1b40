-- ===== src/Mcpserver/PolicyEngine.antt =====
-- The gate before each tool call (internal/mcpserver/policy_engine.go). The two regular expressions
-- of policy_credential.go are run by the standard library's engine: what they match is given.
pub mod Guarded
use famclaw.Prelude.{
  ℕ, Bool, true, false, not, ◌&&◌, ◌||◌, String, Option, none, some, List, [], ◌∷◌, if◌then◌else◌,
}
use famclaw.Prelude.Text.{str_eq, same_text}
use famclaw.Agentcore.Json.{Fields, text_arg}
use famclaw.Mcpserver.RateLimit.{RateLimiter, allow}
use famclaw.Mcpserver.PolicyConfig.{PolicyConfig, tool_enabled, app_mode, mode_full, mode_deny}

-- What adb answers at the time of a call, `none` for an error, and what the expressions match.
pub record Device : Type 0 where
  pub screen_on : Option Bool
  pub foreground_package : Option String
  pub is_credential : String → Bool
  pub is_destructive : String → Bool

pub data Refusal : Type 0 where
  tool_disabled screen_unknown screen_off : Refusal
  foreground_unknown no_foreground app_denied app_read_only : Refusal
  credential target_not_full destructive rate_limited : Refusal

abbrev pub is_mutation : String → Bool
is_mutation tool =
    str_eq tool "tap"
    || str_eq tool "type"
    || str_eq tool "keyevent"
    || str_eq tool "swipe"
    || str_eq tool "open_app"
    || str_eq tool "shell"

unfoldable pub check_screen_on : Device → Option Refusal
check_screen_on d = elim d.screen_on [
  | none ↦ some screen_unknown
  | some on ↦ if on then none else some screen_off
]

unfoldable pub check_foreground : PolicyConfig → Device → Option Refusal
check_foreground c d = elim d.foreground_package [
  | none ↦ some foreground_unknown
  | some pkg ↦
      if str_eq pkg ""
      then some no_foreground
      else if same_text (app_mode c pkg) mode_full
      then none
      else if same_text (app_mode c pkg) mode_deny
      then some app_denied
      else some app_read_only
]

-- The text of an argument, empty if there is none or it is no text.
abbrev pub text_of : String → Fields → String
text_of name args = elim (text_arg name args) [ some t ↦ t | none ↦ "" ]

-- A test that is made under a condition only.
abbrev pub check_when : Bool → Option Refusal → Option Refusal
check_when applies refusal = if applies then refusal else none

-- The tests one after the other, up to the first that refuses.
unfoldable pub first_refusal : List (Option Refusal) → Option Refusal
first_refusal [] = none
first_refusal (check ∷ checks) =
    let rest = first_refusal checks in elim check [ some r ↦ some r | none ↦ rest ]

abbrev pub refuse_if : Bool → Refusal → Option Refusal
refuse_if b r = if b then some r else none

-- The tests of `Guard` before the rate limit.
unfoldable pub checks : PolicyConfig → Device → String → Fields → List (Option Refusal)
unfolding check_screen_on check_foreground
checks c d tool args =
    let content = text_of "text" args in
    let target = text_of "package" args in
    let command = text_of "cmd" args in
    refuse_if (not (tool_enabled c tool)) tool_disabled
    ∷ check_when (is_mutation tool) (check_screen_on d)
    ∷ check_when (str_eq tool "tap" || str_eq tool "type") (check_foreground c d)
    ∷ check_when (str_eq tool "type" && not (str_eq content ""))
        (refuse_if (d.is_credential content) credential)
    ∷ check_when (str_eq tool "open_app" && not (str_eq target ""))
        (refuse_if (not (same_text (app_mode c target) mode_full)) target_not_full)
    ∷ check_when (str_eq tool "shell" && not (str_eq command ""))
        (refuse_if (d.is_destructive command) destructive)
    ∷ []

-- `Guard`, at the time `now`.
unfoldable pub guard :
    PolicyConfig → Device → String → Fields → ℕ → RateLimiter → RateLimiter × Option Refusal
unfolding checks first_refusal
guard c d tool args now rl = elim (first_refusal (checks c d tool args)) [
  | some r ↦ (rl, some r)
  | none ↦ let (rl', ok) = allow tool now rl in (rl', if ok then none else some rate_limited)
]
