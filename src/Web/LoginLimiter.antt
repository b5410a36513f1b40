-- ===== src/Web/LoginLimiter.antt =====
-- The limiter of login attempts (internal/web/auth.go). A time is the number of its nanoseconds, and
-- the zero time is 0; each method takes the time that the clock gives it.
pub mod Isolation
pub mod Lockout
use famclaw.Prelude.{
  ℕ, suc, ◌+◌, ◌-◌, ◌*◌, Bool, true, false, String, Option, none, some, List, [], ◌∷◌, leb, ltb,
  if◌then◌else◌,
}
use famclaw.Prelude.Text.{str_eq}

abbrev pub max_attempts : ℕ
max_attempts = 5

abbrev pub minute : ℕ
minute = 60000000000

abbrev pub window : ℕ
window = 15 * minute

abbrev pub lockout : ℕ
lockout = minute

pub record RateLimitEntry : Type 0 where
  pub attempts : ℕ
  pub window_start : ℕ
  pub locked_until : ℕ

-- The map of the entries, by address.
pub record LoginLimiter : Type 0 where
  pub entries : String → Option RateLimitEntry

abbrev pub new_login_limiter : LoginLimiter
new_login_limiter = record { entries = λ ip. none }

abbrev pub set_entry : String → Option RateLimitEntry → LoginLimiter → LoginLimiter
set_entry ip e l = record { entries = λ k. if str_eq ip k then e else l.entries k }

-- The entry of an address, made if there is none.
abbrev pub entry_of : ℕ → Option RateLimitEntry → RateLimitEntry
entry_of now none = record { attempts = 0; window_start = now; locked_until = 0 }
entry_of now (some e) = e

-- What `check` does to an entry and answers: allowed, and the time to wait.
unfoldable pub check_entry : ℕ → RateLimitEntry → RateLimitEntry × (Bool × ℕ)
check_entry now e =
    if ltb now e.locked_until
    then (e, (false, e.locked_until - now))
    else if ltb (e.window_start + window) now
    then (record e { attempts = 0; window_start = now }, (true, 0))
    else (e, (true, 0))

unfoldable pub check : String → ℕ → LoginLimiter → LoginLimiter × (Bool × ℕ)
unfolding check_entry
check ip now l =
    let (e, answer) = check_entry now (entry_of now (l.entries ip)) in
    (set_entry ip (some e) l, answer)

unfoldable pub fail_entry : ℕ → RateLimitEntry → RateLimitEntry
fail_entry now e =
    if leb max_attempts (suc e.attempts)
    then record { attempts = 0; window_start = now + lockout; locked_until = now + lockout }
    else record e { attempts = suc e.attempts }

unfoldable pub record_failure : String → ℕ → LoginLimiter → LoginLimiter
unfolding fail_entry
record_failure ip now l = set_entry ip (some (fail_entry now (entry_of now (l.entries ip)))) l

unfoldable pub record_success : String → LoginLimiter → LoginLimiter
record_success ip l = set_entry ip none l

-- The calls that the handlers make, in the order in which they take the lock.
pub data Call : Type 0 where
  checks fails : String → ℕ → Call
  succeeds : String → Call

unfoldable pub call : Call → LoginLimiter → LoginLimiter
unfolding check record_failure record_success
call (checks ip now) l = (check ip now l).0
call (fails ip now) l = record_failure ip now l
call (succeeds ip) l = record_success ip l

unfoldable pub run : List Call → LoginLimiter → LoginLimiter
run [] l = l
run (c ∷ calls) l = run calls (call c l)
