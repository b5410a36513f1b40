-- ===== src/Gateway/Session/Answered.antt =====
-- Every request that entered the queue is answered once.
use famclaw.Prelude.{
  ℕ, zero, suc, ◌+◌, ◌≤◌, ◌≡◌, refl, sym, ap, ◌∙◌, inl, inr, Option, none, some, List, [], ◌∷◌,
  ◌++◌, ◌==◌, ltb, length, drop, length-append, if◌then◌else◌, arith, Bool-cases,
}
use mathlib.Core.Path.{subst}
use famclaw.Gateway.Session.{
  queue_size, Outcome, Session, new_session, enqueue, dropped_by, drop_oldest, taken_by,
  take_request, finished_by, finish_request, Event, enqueues, drops, takes, finishes, step, run,
  drain,
}

-- How often a request stands in a list, is worked on, and was answered.
abbrev pub count : ℕ → List ℕ → ℕ
count r [] = 0
count r (q ∷ l) = if q == r then suc (count r l) else count r l

abbrev pub count_current : ℕ → Option ℕ → ℕ
count_current r none = 0
count_current r (some q) = if q == r then 1 else 0

abbrev pub answers : ℕ → List (ℕ × Outcome) → ℕ
answers r [] = 0
answers r ((q, outcome) ∷ l) = if q == r then suc (answers r l) else answers r l

count-append : (r q : ℕ) (l : List ℕ) → count r (l ++ (q ∷ [])) ≡ count r (q ∷ l)
count-append r q [] = refl
count-append r q (p ∷ l) = ground (arith, count-append r q l)

-- No request is lost or doubled, and the queue is no longer than it may be.
pub record IsFair (s : Session) : Type 0 where
  pub balance :
      (r : ℕ)
      → count r s.queue + count_current r s.current + answers r s.replies ≡ count r s.accepted
  pub bounded : length s.queue ≤ queue_size

enqueue-IsFair : (r : ℕ) (s : Session) → IsFair s → IsFair (enqueue r s)
unfolding enqueue
enqueue-IsFair r s f = elim (Bool-cases (ltb (length s.queue) queue_size)) [
  | inl room ↦ rw room (record {
    balance = λ q. let c = count-append q r s.queue in let b = f.balance q in ground arith;
    bounded = let l = length-append s.queue (r ∷ []) in ground arith;
  })
  | inr full ↦ rw full f
]

dropped_by-IsFair :
    (queue : List ℕ) (s : Session) → s.queue ≡ queue → IsFair s → IsFair (dropped_by queue s)
dropped_by-IsFair [] s e f = f
dropped_by-IsFair (r ∷ rest) s e f = record {
  balance = λ q. let b = ap (λ l. count q l) e in let a = f.balance q in ground arith;
  bounded = let l = ap length e in let a = f.bounded in omega arith;
}

taken_by-IsFair :
    (current : Option ℕ) (queue : List ℕ) (s : Session)
    → s.current ≡ current
    → s.queue ≡ queue
    → IsFair s
    → IsFair (taken_by current queue s)
taken_by-IsFair (some c) queue s k e f = f
taken_by-IsFair none [] s k e f = f
taken_by-IsFair none (r ∷ rest) s k e f = record {
  balance = λ q.
      let b = ap (λ l. count q l) e in
      let c = ap (λ o. count_current q o) k in let a = f.balance q in ground arith;
  bounded = let l = ap length e in let a = f.bounded in omega arith;
}

finished_by-IsFair :
    (current : Option ℕ) (s : Session)
    → s.current ≡ current
    → IsFair s
    → IsFair (finished_by current s)
finished_by-IsFair none s k f = f
finished_by-IsFair (some r) s k f = record {
  balance = λ q. let c = ap (λ o. count_current q o) k in let a = f.balance q in ground arith;
  bounded = f.bounded;
}

take-IsFair : (s : Session) → IsFair s → IsFair (take_request s)
unfolding take_request
take-IsFair s f = taken_by-IsFair s.current s.queue s refl refl f

finish-IsFair : (s : Session) → IsFair s → IsFair (finish_request s)
unfolding finish_request
finish-IsFair s f = finished_by-IsFair s.current s refl f

step-IsFair : (e : Event) (s : Session) → IsFair s → IsFair (step e s)
unfolding step drop_oldest
step-IsFair (enqueues r) s f = enqueue-IsFair r s f
step-IsFair drops s f = dropped_by-IsFair s.queue s refl f
step-IsFair takes s f = take-IsFair s f
step-IsFair finishes s f = finish-IsFair s f

run-IsFair : (events : List Event) (s : Session) → IsFair s → IsFair (run events s)
unfolding run
run-IsFair [] s f = f
run-IsFair (e ∷ events) s f = run-IsFair events (step e s) (step-IsFair e s f)

drain-IsFair : (n : ℕ) (s : Session) → IsFair s → IsFair (drain n s)
unfolding drain
drain-IsFair zero s f = f
drain-IsFair (suc n) s f =
    let t = finish_request s in
    drain-IsFair n (finish_request (take_request t))
      (finish-IsFair (take_request t) (take-IsFair t (finish-IsFair s f)))

-- Nothing waits and nothing is worked on.
abbrev pub IsIdle : Session → Type 0
IsIdle s = (s.queue ≡ []) × (s.current ≡ none)

-- One round of the goroutine on an idle one leaves one request less.
record Round (queue : List ℕ) (accepted : List ℕ) (s : Session) : Type 0 where
  waiting : s.queue ≡ drop 1 queue
  idle : s.current ≡ none
  same : s.accepted ≡ accepted

round_idle :
    (queue : List ℕ) (s : Session)
    → s.queue ≡ queue
    → s.current ≡ none
    → Round queue s.accepted (finish_request (taken_by none queue s))
unfolding finish_request
round_idle [] s e k = rw k (record { waiting = e; idle = refl; same = refl })
round_idle (r ∷ rest) s e k = record { waiting = refl; idle = refl; same = refl }

finished_idle :
    (current : Option ℕ) (s : Session)
    → s.current ≡ current
    → ((finished_by current s).current ≡ none)
      × ((finished_by current s).queue ≡ s.queue)
      × ((finished_by current s).accepted ≡ s.accepted)
finished_idle none s k = (k, refl, refl)
finished_idle (some r) s k = (refl, refl, refl)

round-Round :
    (s : Session) → Round s.queue s.accepted (finish_request (take_request (finish_request s)))
unfolding take_request finish_request
round-Round s =
    let t = finished_by s.current s in
    let (idle, queue, accepted) = finished_idle s.current s refl in
    let r = round_idle t.queue t refl idle in
    let u = finish_request (taken_by t.current t.queue t) in
    let same : finish_request (taken_by none t.queue t) ≡ u =
      ap (λ o. finish_request (taken_by o t.queue t)) (sym idle) in
    subst (λ v. Round s.queue s.accepted v) same
      (record {
        waiting = r.waiting ∙ ap (λ q. drop 1 q) queue;
        idle = r.idle;
        same = r.same ∙ accepted;
      })

length-drop_one : (l : List ℕ) (n : ℕ) → length l ≤ suc n → length (drop 1 l) ≤ n
length-drop_one [] n h = omega arith
length-drop_one (x ∷ l) n h = omega arith

no_queue : (l : List ℕ) → length l ≤ 0 → l ≡ []
no_queue [] h = refl
no_queue (x ∷ l) h = absurd (omega arith)

drain-IsIdle :
    (n : ℕ) (s : Session)
    → length s.queue ≤ n
    → IsIdle (drain (suc n) s) × ((drain (suc n) s).accepted ≡ s.accepted)
unfolding drain
drain-IsIdle zero s h =
    let r = round-Round s in ((r.waiting ∙ ap (λ q. drop 1 q) (no_queue s.queue h), r.idle), r.same)
drain-IsIdle (suc n) s h =
    let r = round-Round s in
    let t = finish_request (take_request (finish_request s)) in
    let (idle, same) =
      drain-IsIdle n t (subst (λ q. length q ≤ n) (sym r.waiting) (length-drop_one s.queue n h)) in
    (idle, same ∙ r.same)

new_session-IsFair : IsFair new_session
new_session-IsFair = record { balance = λ r. refl; bounded = omega arith }

-- Whatever has happened to a new session, its queue holds at most ten requests; and if its goroutine
-- is left alone for as many rounds as requests wait and one more, every request that ever entered the
-- queue has been answered exactly as often as it entered, with its result or with the error of a
-- request that was dropped: none is lost, and none is answered twice.
pub answers-drain :
    (events : List Event) (r : ℕ)
    → let s = run events new_session in
      (length s.queue ≤ queue_size)
      × (answers r (drain (suc (length s.queue)) s).replies ≡ count r s.accepted)
answers-drain events r =
    let s = run events new_session in
    let f = run-IsFair events new_session new_session-IsFair in
    let t = drain (suc (length s.queue)) s in
    let g = drain-IsFair (suc (length s.queue)) s f in
    let ((queue, current), same) = drain-IsIdle (length s.queue) s (omega arith) in
    let a = ap (λ l. count r l) queue in
    let b = ap (λ o. count_current r o) current in
    let c = ap (λ l. count r l) same in
    let d = g.balance r in (f.bounded, omega (arith, a, b, c, d))
