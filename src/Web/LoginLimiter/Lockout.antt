-- ===== src/Web/LoginLimiter/Lockout.antt =====
-- When an address is locked, and for how long.
use famclaw.Prelude.{
  ℕ, suc, ◌+◌, ◌-◌, ◌≤◌, ◌<◌, ◌≡◌, refl, ap, ◌∙◌, inl, inr, true, false, String, Option, none, some,
  List, [], ◌∷◌, if◌then◌else◌, Bool-cases, arith, All,
}
use mathlib.Core.Path.{subst}
use famclaw.Prelude.Text.{str_eq, eq_refl}
use famclaw.Web.LoginLimiter.{
  LoginLimiter, RateLimitEntry, Call, checks, fails, succeeds, check_entry, fail_entry, entry_of,
  check, record_failure, run, window, lockout,
}
use famclaw.Web.LoginLimiter.Isolation.{address, step_entry, run_entry, entries-run}

abbrev pub locked_until_of : Option RateLimitEntry → ℕ
locked_until_of none = 0
locked_until_of (some e) = e.locked_until

abbrev pub attempts_of : Option RateLimitEntry → ℕ
attempts_of none = 0
attempts_of (some e) = e.attempts

-- A call at a time from `from` to `to`, which is no success of the address.
abbrev pub Attempting : String → ℕ → ℕ → Call → Type 0
Attempting ip from to (checks k now) = (from ≤ now) × (now ≤ to)
Attempting ip from to (fails k now) = (from ≤ now) × (now ≤ to)
Attempting ip from to (succeeds k) = str_eq k ip ≡ false

step_entry-locked :
    (c : Call) (ip : String) (o : Option RateLimitEntry) (from to until : ℕ)
    → Attempting ip from to c
    → until ≤ from + lockout
    → until ≤ locked_until_of o
    → str_eq (address c) ip ≡ true
    → until ≤ locked_until_of (step_entry c o)
unfolding step_entry check_entry fail_entry
step_entry-locked (checks k now) ip none from to until a u h s = ground arith
step_entry-locked (checks k now) ip (some e) from to until a u h s = ground arith
step_entry-locked (fails k now) ip none from to until a u h s = ground arith
step_entry-locked (fails k now) ip (some e) from to until a u h s = ground arith
step_entry-locked (succeeds k) ip o from to until a u h s = cc

run_entry-locked :
    (calls : List Call) (ip : String) (o : Option RateLimitEntry) (from to until : ℕ)
    → All (Attempting ip from to) calls
    → until ≤ from + lockout
    → until ≤ locked_until_of o
    → until ≤ locked_until_of (run_entry ip calls o)
unfolding run_entry
run_entry-locked [] ip o from to until a u h = h
run_entry-locked (c ∷ calls) ip o from to until a u h = elim (Bool-cases (str_eq (address c) ip)) [
  | inl e ↦ rw e (
      run_entry-locked calls ip (step_entry c o) from to until a.1 u
        (step_entry-locked c ip o from to until a.0 u h e))
  | inr n ↦ rw n (run_entry-locked calls ip o from to until a.1 u h)
]

check_entry_locked :
    (now : ℕ) (o : Option RateLimitEntry)
    → now < locked_until_of o
    → (check_entry now (entry_of now o)).1 ≡ (false, locked_until_of o - now)
unfolding check_entry
check_entry_locked now none h = ground arith
check_entry_locked now (some e) h = ground arith

check_locked :
    (ip : String) (now : ℕ) (l : LoginLimiter)
    → now < locked_until_of (l.entries ip)
    → (check ip now l).1 ≡ (false, locked_until_of (l.entries ip) - now)
unfolding check
check_locked ip now l h = check_entry_locked now (l.entries ip) h

-- An address that is locked beyond the time `now` is refused at that time, whatever calls were made
-- before for this address or for others, if none was a success of the address, and the failures
-- among them came at most the length of a lockout before.
pub check-run_locked :
    (calls : List Call) (ip : String) (l : LoginLimiter) (from to now : ℕ)
    → All (Attempting ip from to) calls
    → now < from + lockout
    → now < locked_until_of (l.entries ip)
    → (check ip now (run calls l)).1.0 ≡ false
check-run_locked calls ip l from to now a u h =
    let k =
      run_entry-locked calls ip (l.entries ip) from to (suc now) a (omega arith) (omega arith) in
    let e = ap locked_until_of (entries-run calls ip l) in
    ap (λ p. p.0) (check_locked ip now (run calls l) (omega (arith, k, e)))

-- Number of the failures of the address.
unfoldable pub failures : String → List Call → ℕ
failures ip [] = 0
failures ip (fails k now ∷ calls) =
    let rest = failures ip calls in if str_eq k ip then suc rest else rest
failures ip (_ ∷ calls) = failures ip calls

-- The window of the entry has not ended before `to`, or there is no entry yet.
abbrev IsOpen : ℕ → Option RateLimitEntry → Type 0
IsOpen to none = Unit
IsOpen to (some e) = to ≤ e.window_start + window

record Counted (ip : String) (to n : ℕ) (o : Option RateLimitEntry) : Type 0 where
  counts : attempts_of o ≡ n
  is_open : IsOpen to o

step_entry-Counted :
    (c : Call) (ip : String) (o : Option RateLimitEntry) (from to n : ℕ)
    → Attempting ip from to c
    → to ≤ from + window
    → str_eq (address c) ip ≡ true
    → n + failures ip (c ∷ []) ≤ 4
    → Counted ip to n o
    → Counted ip to (n + failures ip (c ∷ [])) (step_entry c o)
unfolding step_entry check_entry fail_entry failures
step_entry-Counted (checks k now) ip none from to n a u s m q = record {
  counts = ground (arith, q.counts);
  is_open = ground arith;
}
step_entry-Counted (checks k now) ip (some e) from to n a u s m q = record {
  counts = ground (arith, q.counts, q.is_open);
  is_open = ground (arith, q.is_open);
}
step_entry-Counted (fails k now) ip none from to n a u s m q = record {
  counts = ground (arith, q.counts);
  is_open = ground arith;
}
step_entry-Counted (fails k now) ip (some e) from to n a u s m q = record {
  counts = ground (arith, q.counts);
  is_open = ground (arith, q.is_open, q.counts);
}
step_entry-Counted (succeeds k) ip o from to n a u s m q = cc

failures-cons :
    (c : Call) (ip : String) (calls : List Call)
    → failures ip (c ∷ calls) ≡ failures ip (c ∷ []) + failures ip calls
unfolding failures
failures-cons (checks k now) ip calls = omega arith
failures-cons (fails k now) ip calls = ground arith
failures-cons (succeeds k) ip calls = omega arith

failures_other : (c : Call) (ip : String) → str_eq (address c) ip ≡ false → failures ip (c ∷ []) ≡ 0
unfolding failures
failures_other (checks k now) ip e = refl
failures_other (fails k now) ip e = ground arith
failures_other (succeeds k) ip e = refl

run_entry-Counted :
    (calls : List Call) (ip : String) (o : Option RateLimitEntry) (from to n : ℕ)
    → All (Attempting ip from to) calls
    → to ≤ from + window
    → n + failures ip calls ≤ 4
    → Counted ip to n o
    → Counted ip to (n + failures ip calls) (run_entry ip calls o)
unfolding run_entry failures
run_entry-Counted [] ip o from to n a u m q = subst (λ k. Counted ip to k o) (omega arith) q
run_entry-Counted (c ∷ calls) ip o from to n a u m q =
    let split = failures-cons c ip calls in
    elim (Bool-cases (str_eq (address c) ip)) [
      | inl e ↦
          let step = step_entry-Counted c ip o from to n a.0 u e (omega (arith, m, split)) q in
          let rest =
            run_entry-Counted calls ip (step_entry c o) from to (n + failures ip (c ∷ [])) a.1 u
              (omega (arith, m, split)) step in
          rw e (
            subst (λ k. Counted ip to k (run_entry ip calls (step_entry c o)))
              (omega (arith, split)) rest)
      | inr d ↦
          let zero = failures_other c ip d in
          let rest = run_entry-Counted calls ip o from to n a.1 u (omega (arith, m, split)) q in
          rw d
            (subst (λ k. Counted ip to k (run_entry ip calls o)) (omega (arith, split, zero)) rest)
    ]

fail_entry_fifth :
    (o : Option RateLimitEntry) (now : ℕ)
    → attempts_of o ≡ 4
    → (fail_entry now (entry_of now o)).locked_until ≡ now + lockout
unfolding fail_entry
fail_entry_fifth none now e = ground arith
fail_entry_fifth (some x) now e = ground arith

-- If an address that the limiter did not know has failed four times within the window, with any
-- checks of it and any calls for other addresses between, the fifth failure locks it for the length
-- of a lockout: until then it is refused.
pub fifth_failure_locks :
    (calls : List Call) (ip : String) (l : LoginLimiter) (from to last now : ℕ)
    → l.entries ip ≡ none
    → All (Attempting ip from to) calls
    → to ≤ from + window
    → failures ip calls ≡ 4
    → now < last + lockout
    → (check ip now (record_failure ip last (run calls l))).1 ≡ (false, last + lockout - now)
unfolding record_failure
fifth_failure_locks calls ip l from to last now e a u f h =
    let q =
      run_entry-Counted calls ip none from to 0 a u (omega (arith, f))
        (record { counts = refl; is_open = tt }) in
    let r = entries-run calls ip l in
    let four : attempts_of ((run calls l).entries ip) ≡ 4 =
      (let k = ap attempts_of (r ∙ ap (run_entry ip calls) e) in
        let counts = q.counts in omega (arith, k, counts, f)) in
    let t = record_failure ip last (run calls l) in
    let lock : locked_until_of (t.entries ip) ≡ last + lockout =
      rw (eq_refl ip) (fail_entry_fifth ((run calls l).entries ip) last four) in
    check_locked ip now t (omega (arith, lock, h)) ∙ ap (λ (u : ℕ). (false, u - now)) lock
