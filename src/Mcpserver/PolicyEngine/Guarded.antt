-- ===== src/Mcpserver/PolicyEngine/Guarded.antt =====
-- What is true of each call that the gate lets through.
use famclaw.Prelude.{
  ℕ, ◌≡◌, refl, ◌⊎◌, inl, inr, Bool, true, false, not, ◌&&◌, ◌||◌, String, Option, none, some, List,
  [], ◌∷◌, arith, All, Bool-cases, Option-cases, ==_iff,
}
use famclaw.Prelude.Text.{str_eq, eq_iff, same_text}
use famclaw.Agentcore.Json.{Fields}
use famclaw.Mcpserver.RateLimit.{RateLimiter, allow}
use famclaw.Mcpserver.PolicyConfig.{PolicyConfig, tool_enabled, app_mode, mode_full}
use famclaw.Mcpserver.PolicyEngine.{
  Device, Refusal, is_mutation, check_screen_on, check_foreground, text_of, check_when,
  first_refusal, refuse_if, checks, guard,
}

same_text_eq : (l k : List ℕ) → same_text l k ≡ true → l ≡ k
same_text_eq [] [] e = refl
same_text_eq [] (b ∷ k) e = cc
same_text_eq (a ∷ l) [] e = cc
same_text_eq (a ∷ l) (b ∷ k) e =
    let ih = same_text_eq l k (ground arith) in
    let h : a ≡ b = (==_iff a b).0 (ground arith) in rw (h, ih) refl

-- A list of tests refuses nothing exactly if none of them does.
first_refusal-All : (l : List (Option Refusal)) → first_refusal l ≡ none → All (λ c. c ≡ none) l
unfolding first_refusal
first_refusal-All [] e = tt
first_refusal-All (c ∷ l) e = elim (Option-cases c) [
  | inl n ↦ (n, first_refusal-All l (rw n at e))
  | inr (r, s) ↦ let e' = rw s at e in cc
]

foreground_full :
    (c : PolicyConfig) (d : Device)
    → check_foreground c d ≡ none
    → (pkg : String) × (d.foreground_package ≡ some pkg) × (app_mode c pkg ≡ mode_full)
unfolding check_foreground
foreground_full c d e = elim (Option-cases d.foreground_package) [
  | inl n ↦ let e' = rw n at e in cc
  | inr (pkg, s) ↦
      (pkg, s, same_text_eq (app_mode c pkg) mode_full (let e' = rw s at e in ground arith))
]

screen_is_on : (d : Device) → check_screen_on d ≡ none → d.screen_on ≡ some true
unfolding check_screen_on
screen_is_on d e = elim (Option-cases d.screen_on) [
  | inl n ↦ let e' = rw n at e in cc
  | inr (true, s) ↦ s
  | inr (false, s) ↦ let e' = rw s at e in cc
]

-- What the gate has found out about a call that it lets through.
pub record Passed (c : PolicyConfig) (d : Device) (tool : String) (args : Fields) (now : ℕ)
    (rl : RateLimiter) : Type 0 where
  pub enabled : tool_enabled c tool ≡ true
  pub screen : is_mutation tool ≡ true → d.screen_on ≡ some true
  pub foreground :
      (str_eq tool "tap" || str_eq tool "type") ≡ true
      → (pkg : String) × (d.foreground_package ≡ some pkg) × (app_mode c pkg ≡ mode_full)
  pub no_credential :
      str_eq tool "type" ≡ true
      → (text_of "text" args ≡ "") ⊎ (d.is_credential (text_of "text" args) ≡ false)
  pub target :
      str_eq tool "open_app" ≡ true
      → (text_of "package" args ≡ "") ⊎ (app_mode c (text_of "package" args) ≡ mode_full)
  pub harmless :
      str_eq tool "shell" ≡ true
      → (text_of "cmd" args ≡ "") ⊎ (d.is_destructive (text_of "cmd" args) ≡ false)
  pub within_rate : (allow tool now rl).1 ≡ true

-- A test of a text that is made if the text is not empty.
empty_or :
    (applies bad : Bool) (text : String) (r : Refusal)
    → check_when (applies && not (str_eq text "")) (refuse_if bad r) ≡ none
    → applies ≡ true
    → (text ≡ "") ⊎ (bad ≡ false)
empty_or applies bad text r h a = elim (Bool-cases (str_eq text "")) [
  | inl e ↦ inl ((eq_iff text "").0 e)
  | inr n ↦ inr (ground arith)
]

check_when-none : (b : Bool) (c : Option Refusal) → check_when b c ≡ none → b ≡ true → c ≡ none
check_when-none b c h e = rw e at h

not_refused : (b : Bool) (r : Refusal) → refuse_if (not b) r ≡ none → b ≡ true
not_refused b r h = ground arith

module _ (c : PolicyConfig) (d : Device) (tool : String) (args : Fields) (now : ℕ)
    (rl : RateLimiter) where
  checks-Passed :
      All (λ o. o ≡ none) (checks c d tool args)
      → (allow tool now rl).1 ≡ true
      → Passed c d tool args now rl
  unfolding checks
  checks-Passed (e, (s, (f, (t, (o, (k, _)))))) w = record {
    enabled = not_refused (tool_enabled c tool) _ e;
    screen = λ h. screen_is_on d (check_when-none _ _ s h);
    foreground = λ h. foreground_full c d (check_when-none _ _ f h);
    no_credential = empty_or _ _ (text_of "text" args) _ t;
    target = λ h. elim (empty_or _ _ (text_of "package" args) _ o h) [
      | inl e ↦ inl e
      | inr m ↦ inr (same_text_eq _ mode_full (ground arith))
    ];
    harmless = empty_or _ _ (text_of "cmd" args) _ k;
    within_rate = w;
  }

  -- A call that the gate lets through is of an enabled tool and within the rate limit. If it changes
  -- the device, the screen is on; if it taps or types, an app in the mode `full` is in the foreground;
  -- what it types is no credential, the app that it opens is in the mode `full`, and its shell command
  -- is not destructive.
  pub guard-Passed : (guard c d tool args now rl).1 ≡ none → Passed c d tool args now rl
  unfolding guard
  guard-Passed g = elim (Option-cases (first_refusal (checks c d tool args))) [
    | inl n ↦
        checks-Passed (first_refusal-All (checks c d tool args) n)
          (let g' = rw (n, guard) at g in ground arith)
    | inr (r, s) ↦ let g' = rw (s, guard) at g in cc
  ]
