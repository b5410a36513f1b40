-- ===== src/Mcpserver/RateLimit.antt =====
-- The limit on the calls of a tool (internal/mcpserver/policy_ratelimit.go). A time is the number of
-- its nanoseconds.
pub mod Window
use famclaw.Prelude.{
  ℕ, ◌+◌, ◌≤◌, Bool, true, false, String, Option, none, some, List, [], ◌∷◌, ◌++◌, leb, ltb,
  if◌then◌else◌, length, ◌&&◌,
}
use famclaw.Prelude.Text.{str_eq}

abbrev pub second : ℕ
second = 1000000000

unfoldable pub rate_limits : String → Option ℕ
rate_limits tool =
    if str_eq tool "tap"
    then some 5
    else if str_eq tool "type"
    then some 30
    else if str_eq tool "screenshot"
    then some 2
    else none

pub record RateLimiter : Type 0 where
  pub calls : String → List ℕ

abbrev pub new_rate_limiter : RateLimiter
new_rate_limiter = record { calls = λ tool. [] }

-- The prefix of the times that are not after `now` less a second is dropped.
unfoldable pub drop_stale : ℕ → List ℕ → List ℕ
drop_stale now [] = []
drop_stale now (t ∷ recent) =
    let rest = drop_stale now recent in if ltb now (t + second) then t ∷ recent else rest

abbrev pub set_calls : String → List ℕ → RateLimiter → RateLimiter
set_calls tool times rl = record { calls = λ t. if str_eq tool t then times else rl.calls t }

-- What follows the look at the cap of the tool.
unfoldable pub admit : String → ℕ → RateLimiter → Option ℕ → RateLimiter × Bool
unfolding drop_stale
admit tool now rl none = (rl, true)
admit tool now rl (some limit) =
    let recent = drop_stale now (rl.calls tool) in
    if leb limit (length recent)
    then (rl, false)
    else (set_calls tool (recent ++ now ∷ []) rl, true)

-- `allow`, at the time `now`; false is the error.
unfoldable pub allow : String → ℕ → RateLimiter → RateLimiter × Bool
unfolding admit
allow tool now rl = admit tool now rl (rate_limits tool)

pub record Call : Type 0 where
  pub tool : String
  pub now : ℕ

abbrev pub note_passed : String → Call → Bool → List ℕ → List ℕ
note_passed tool c ok passed = if ok && str_eq c.tool tool then passed ++ c.now ∷ [] else passed

-- One call more, with the times of the calls of `tool` that were let through.
abbrev pub allow_next : String → Call → RateLimiter × List ℕ → RateLimiter × List ℕ
allow_next tool c (rl, passed) =
    let (rl', ok) = allow c.tool c.now rl in (rl', note_passed tool c ok passed)

unfoldable pub allow_all : String → List Call → RateLimiter × List ℕ → RateLimiter × List ℕ
allow_all tool [] p = p
allow_all tool (c ∷ calls) p = allow_all tool calls (allow_next tool c p)
