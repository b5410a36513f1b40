-- ===== src/Web/LoginLimiter/Isolation.antt =====
-- The addresses do not affect each other.
use famclaw.Prelude.{
  ◌≡◌, refl, ap, ◌∙◌, inl, inr, String, Option, none, some, List, [], ◌∷◌, if◌then◌else◌,
  Bool-cases,
}
use famclaw.Prelude.Text.{str_eq, eq_iff}
use famclaw.Web.LoginLimiter.{
  LoginLimiter, RateLimitEntry, Call, checks, fails, succeeds, check_entry, fail_entry, entry_of,
  check, record_failure, record_success, call, run,
}

abbrev pub address : Call → String
address (checks ip now) = ip
address (fails ip now) = ip
address (succeeds ip) = ip

-- What a call does to the entry of its own address.
unfoldable pub step_entry : Call → Option RateLimitEntry → Option RateLimitEntry
step_entry (checks ip now) e = some (check_entry now (entry_of now e)).0
step_entry (fails ip now) e = some (fail_entry now (entry_of now e))
step_entry (succeeds ip) e = none

-- The calls of one address, applied to its entry alone.
unfoldable pub run_entry : String → List Call → Option RateLimitEntry → Option RateLimitEntry
unfolding step_entry
run_entry ip [] e = e
run_entry ip (c ∷ calls) e =
    run_entry ip calls (if str_eq (address c) ip then step_entry c e else e)

own_entry :
    (k ip : String) (f : Option RateLimitEntry → Option RateLimitEntry) (l : LoginLimiter)
    → (if str_eq k ip then f (l.entries k) else l.entries ip)
      ≡ (if str_eq k ip then f (l.entries ip) else l.entries ip)
own_entry k ip f l = elim (Bool-cases (str_eq k ip)) [
  | inl e ↦ rw ((eq_iff k ip).0 e) refl
  | inr n ↦ rw n refl
]

entries-call :
    (c : Call) (ip : String) (l : LoginLimiter)
    → (call c l).entries ip
      ≡ (if str_eq (address c) ip then step_entry c (l.entries ip) else l.entries ip)
unfolding call check record_failure record_success step_entry
entries-call (checks k now) ip l = own_entry k ip (λ e. some (check_entry now (entry_of now e)).0) l
entries-call (fails k now) ip l = own_entry k ip (λ e. some (fail_entry now (entry_of now e))) l
entries-call (succeeds k) ip l = refl

-- The entry of an address after any calls is what the calls of this address alone make of it.
pub entries-run :
    (calls : List Call) (ip : String) (l : LoginLimiter)
    → (run calls l).entries ip ≡ run_entry ip calls (l.entries ip)
unfolding run run_entry
entries-run [] ip l = refl
entries-run (c ∷ calls) ip l =
    entries-run calls ip (call c l) ∙ ap (run_entry ip calls) (entries-call c ip l)
