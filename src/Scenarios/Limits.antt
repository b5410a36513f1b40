-- ===== src/Scenarios/Limits.antt =====
-- Calls of the Android tools and login attempts.
use famclaw.Prelude.{◌+◌, ◌-◌, ◌≤◌, ◌≡◌, refl, ◌↔◌, true, false, none, some, List, [], ◌∷◌, arith}
use famclaw.Agentcore.Json.{Fields, end, field, text, text_arg}
use famclaw.Mcpserver.RateLimit as R
use famclaw.Mcpserver.RateLimit.{
  RateLimiter, new_rate_limiter, second, rate_limits, drop_stale, allow, admit, allow_all,
}
use famclaw.Mcpserver.RateLimit.Window.{in_window, allow_all_limited}
use famclaw.Prelude.Text.{to_lower, trim_left, trim_right}
use famclaw.Mcpserver.PolicyConfig.{
  PolicyConfig, validate, validate_apps, validate_deny, contains, is_known_mode, normalise,
  normalised_mode, tool_enabled, lookup, app_mode, mode_of, mode_full,
}
use famclaw.Mcpserver.PolicyConfig.Allowlist.{HasFull, app_mode_full_iff}
use famclaw.Mcpserver.PolicyEngine.{
  Device, checks, first_refusal, check_screen_on, check_foreground, guard,
}
use famclaw.Mcpserver.PolicyEngine.Guarded.{Passed, guard-Passed}
use famclaw.Web.LoginLimiter.{
  Call, checks as asks, fails, succeeds, LoginLimiter, new_login_limiter, check, record_failure,
  run, lockout, set_entry,
}
use famclaw.Web.LoginLimiter.Isolation.{run_entry, entries-run}
use famclaw.Web.LoginLimiter.Lockout.{failures, check-run_locked, fifth_failure_locks}

-- Three screenshots within a second.
abbrev shots : List R.Call
shots =
    record { tool = "screenshot"; now = 2000000000 }
    ∷ record { tool = "screenshot"; now = 2000000001 }
    ∷ record { tool = "screenshot"; now = 2000000002 }
    ∷ []

third_refused :
    (allow_all "screenshot" shots (new_rate_limiter, [])).1 ≡ 2000000000 ∷ 2000000001 ∷ []
unfolding allow_all allow admit drop_stale rate_limits
third_refused = refl

screenshot_limit : rate_limits "screenshot" ≡ some 2
unfolding rate_limits
screenshot_limit = refl

allow_all_limited_example :
    in_window 1999999999 (allow_all "screenshot" shots (new_rate_limiter, [])).1 ≤ 2
allow_all_limited_example =
    allow_all_limited "screenshot" 2 0 shots screenshot_limit
      (omega arith, (omega arith, (omega arith, tt))) 1999999999

abbrev policy : PolicyConfig
policy = record {
  device_alias = "phone";
  screen_policy = "refuse_when_off";
  max_actions_per_turn = 30;
  min_interval_ms = 150;
  tools = ("shell", false) ∷ [];
  apps = record { package_name = "org.maps"; mode = " Full" } ∷ [];
  deny = "org.bank" ∷ [];
}

abbrev device : Device
device = record {
  screen_on = some true;
  foreground_package = some "org.maps";
  is_credential = λ t. false;
  is_destructive = λ t. true;
}

abbrev hello : Fields
hello = field "text" (text "hello") end

policy_valid : validate policy ≡ none
unfolding validate validate_apps validate_deny contains is_known_mode normalise to_lower trim_left
    trim_right
policy_valid = refl

type_passes : (guard policy device "type" hello 5 new_rate_limiter).1 ≡ none
unfolding guard checks first_refusal check_screen_on check_foreground app_mode mode_of
    normalised_mode contains tool_enabled lookup normalise to_lower trim_left trim_right allow admit
    drop_stale rate_limits text_arg
type_passes = refl

app_mode_full_iff_example :
    (app_mode policy "org.maps" ≡ mode_full) ↔ HasFull "org.maps" policy.apps
app_mode_full_iff_example = app_mode_full_iff policy "org.maps" policy_valid

guard-Passed_example : Passed policy device "type" hello 5 new_rate_limiter
guard-Passed_example = guard-Passed policy device "type" hello 5 new_rate_limiter type_passes

-- Four failures of one address, and a success of another.
abbrev tries : List Call
tries =
    asks "10.0.0.7" 1
    ∷ fails "10.0.0.7" 2
    ∷ fails "10.0.0.7" 3
    ∷ succeeds "10.0.0.8"
    ∷ fails "10.0.0.7" 4
    ∷ fails "10.0.0.7" 5
    ∷ []

four_failures : failures "10.0.0.7" tries ≡ 4
unfolding failures
four_failures = refl

entries-run_example :
    (run tries new_login_limiter).entries "10.0.0.7" ≡ run_entry "10.0.0.7" tries none
entries-run_example = entries-run tries "10.0.0.7" new_login_limiter

fifth_failure_locks_example :
    (check "10.0.0.7" 9 (record_failure "10.0.0.7" 6 (run tries new_login_limiter))).1
    ≡ (false, 6 + lockout - 9)
fifth_failure_locks_example =
    fifth_failure_locks tries "10.0.0.7" new_login_limiter 0 5 6 9 refl
      (
        (omega arith, omega arith),
        (
          (omega arith, omega arith),
          (
            (omega arith, omega arith),
            (refl, ((omega arith, omega arith), ((omega arith, omega arith), tt))),
          ),
        ),
      )
      (omega arith) four_failures (omega arith)

abbrev locked : LoginLimiter
locked =
    set_entry "10.0.0.7" (some (record { attempts = 0; window_start = 100; locked_until = 100 }))
      new_login_limiter

check-run_locked_example : (check "10.0.0.7" 99 (run (fails "10.0.0.7" 50 ∷ []) locked)).1.0 ≡ false
check-run_locked_example =
    check-run_locked (fails "10.0.0.7" 50 ∷ []) "10.0.0.7" locked 40 60 99
      ((omega arith, omega arith), tt) (omega arith) (omega arith)
