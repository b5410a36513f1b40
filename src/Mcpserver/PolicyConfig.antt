-- ===== src/Mcpserver/PolicyConfig.antt =====
-- The policy file of the Android tools (internal/mcpserver/policy_config.go), after it was parsed. The
-- two numbers of its rate limit, which no other code reads, cannot be negative here.
pub mod Allowlist
use famclaw.Prelude.{
  ℕ, ◌+◌, ◌-◌, Bool, true, false, not, ◌&&◌, ◌||◌, String, Option, none, some, List, [], ◌∷◌, ◌++◌,
  leb, ◌==◌, if◌then◌else◌,
}
use famclaw.Prelude.Text.{str_eq, codes, same_text, to_lower, trim_left, trim_right}

pub record AppEntry : Type 0 where
  pub package_name : String
  pub mode : String

pub record PolicyConfig : Type 0 where
  pub device_alias : String
  pub screen_policy : String
  pub max_actions_per_turn : ℕ
  pub min_interval_ms : ℕ
  -- a map that is nil is one with no keys
  pub tools : List (String × Bool)
  pub apps : List AppEntry
  pub deny : List String

pub data ConfigError : Type 0 where
  unknown_screen_policy max_actions_not_positive : ConfigError
  empty_package empty_deny : ConfigError
  unknown_mode duplicate_package in_both : String → ConfigError

-- `strings.TrimSpace(strings.ToLower(mode))` of the text of a mode, of which only the letters of
-- ASCII are made lower.
unfoldable pub normalise : String → List ℕ
unfolding to_lower trim_left trim_right
normalise mode = trim_right (trim_left (to_lower (codes mode)))

abbrev pub mode_full : List ℕ
mode_full = codes "full"

abbrev pub mode_read_only : List ℕ
mode_read_only = codes "read_only"

abbrev pub mode_deny : List ℕ
mode_deny = codes "deny"

-- `validateAppMode`
unfoldable pub is_known_mode : String → Bool
unfolding normalise
is_known_mode mode =
    let m = normalise mode in
    same_text m mode_full
    || same_text m (codes "read")
    || same_text m mode_read_only
    || same_text m mode_deny

unfoldable pub normalised_mode : AppEntry → List ℕ
unfolding normalise
normalised_mode a =
    if same_text (normalise a.mode) (codes "read") then mode_read_only else normalise a.mode

unfoldable pub contains : String → List String → Bool
contains name [] = false
contains name (t ∷ l) = str_eq t name || contains name l

-- The second loop of `validate`; the packages seen so far are `seen`.
unfoldable pub validate_deny : List String → List String → Option ConfigError
unfolding contains
validate_deny seen [] = none
validate_deny seen (pkg ∷ deny) =
    let rest = validate_deny (pkg ∷ seen) deny in
    if str_eq pkg ""
    then some empty_deny
    else if contains pkg seen
    then some (in_both pkg)
    else rest

-- The first loop, and then the second.
unfoldable pub validate_apps : List String → List AppEntry → List String → Option ConfigError
unfolding validate_deny contains is_known_mode
validate_apps seen [] deny = validate_deny seen deny
validate_apps seen (app ∷ apps) deny =
    let rest = validate_apps (app.package_name ∷ seen) apps deny in
    if str_eq app.package_name ""
    then some empty_package
    else if not (is_known_mode app.mode)
    then some (unknown_mode app.package_name)
    else if contains app.package_name seen
    then some (duplicate_package app.package_name)
    else rest

unfoldable pub validate : PolicyConfig → Option ConfigError
unfolding validate_apps
validate c =
    if not (str_eq c.screen_policy "refuse_when_off")
      && not (str_eq c.screen_policy "wake_on_request")
    then some unknown_screen_policy
    else if c.max_actions_per_turn == 0
    then some max_actions_not_positive
    else validate_apps [] c.apps c.deny

unfoldable pub lookup : String → List (String × Bool) → Option Bool
lookup name [] = none
lookup name ((k, v) ∷ l) = let rest = lookup name l in if str_eq k name then some v else rest

unfoldable pub tool_enabled : PolicyConfig → String → Bool
unfolding lookup
tool_enabled c name = elim (lookup name c.tools) [
  | some enabled ↦ enabled
  | none ↦ not (str_eq name "shell")
]

-- The loop over the apps in `AppMode`.
unfoldable pub mode_of : String → List AppEntry → List ℕ
unfolding normalised_mode
mode_of pkg [] = mode_read_only
mode_of pkg (app ∷ apps) =
    let rest = mode_of pkg apps in if str_eq app.package_name pkg then normalised_mode app else rest

unfoldable pub app_mode : PolicyConfig → String → List ℕ
unfolding contains mode_of
app_mode c pkg = if contains pkg c.deny then mode_deny else mode_of pkg c.apps
