-- ===== src/Store/Approvals/Final.antt =====
-- What the calls on the table of approvals do to the row of one id.
use famclaw.Prelude.{
  ℕ, ◌≡◌, refl, ap, ◌∙◌, inl, inr, Bool, true, false, ◌&&◌, String, Option, none, some, List, [],
  ◌∷◌, ◌++◌, ◌==◌, if◌then◌else◌, Bool-cases, Option-cases, arith,
}
use famclaw.Prelude.Text.{str_eq, eq_iff}
use famclaw.Store.Approvals.{
  Approval, pending, find, count, inserted_row, upsert_approval, Decision, decided_row, silent,
  with_note, is_open, update, decide, decide_approval, decide_approval_with_note, Event, requests,
  decides, decides_with_note, step, run,
}

-- The row after a decision, if there is one.
abbrev pub decided_in : ℕ → Decision → Option Approval → Option Approval
decided_in now d none = none
decided_in now d (some a) = some (if is_open d a then decided_row now d a else a)

pub find-update :
    (k : String) (now : ℕ) (d : Decision) (rows : List Approval)
    → find k (update now d rows) ≡ decided_in now d (find k rows)
unfolding find update
find-update k now d [] = refl
find-update k now d (a ∷ rows) = elim (Bool-cases (is_open d a)) [
  | inl o ↦ elim (Bool-cases (str_eq a.id k)) [
    | inl s ↦ rw (o, s) (rw o refl)
    | inr n ↦ rw (o, n) (find-update k now d rows)
  ]
  | inr c ↦ elim (Bool-cases (str_eq a.id k)) [
    | inl s ↦ rw (c, s) (rw c refl)
    | inr n ↦ rw (c, n) (find-update k now d rows)
  ]
]

-- The row of an id, or else the row that is appended.
abbrev pub or_appended : String → Approval → Option Approval → Option Approval
or_appended k a none = if str_eq a.id k then some a else none
or_appended k a (some b) = some b

pub find-append :
    (k : String) (a : Approval) (rows : List Approval)
    → find k (rows ++ a ∷ []) ≡ or_appended k a (find k rows)
unfolding find
find-append k a [] = refl
find-append k a (b ∷ rows) = elim (Bool-cases (str_eq b.id k)) [
  | inl s ↦ rw s refl
  | inr n ↦ rw n (find-append k a rows)
]

pub counted_none :
    (k : String) (rows : List Approval) → (count k rows == 0) ≡ true → find k rows ≡ none
unfolding find count
counted_none k [] e = refl
counted_none k (a ∷ rows) e = elim (Bool-cases (str_eq a.id k)) [
  | inl s ↦ let e' = rw s at e in ground arith
  | inr n ↦ rw n (counted_none k rows (rw n at e))
]

counted_some :
    (k : String) (rows : List Approval)
    → (count k rows == 0) ≡ false
    → (a : Approval) × (find k rows ≡ some a)
unfolding find count
counted_some k [] e = cc
counted_some k (a ∷ rows) e = elim (Bool-cases (str_eq a.id k)) [
  | inl s ↦ (a, rw s refl)
  | inr n ↦ let (b, h) = counted_some k rows (rw n at e) in (b, rw n h)
]

-- What a call means for the row of one id, told without the table: a request makes a row where there
-- is none, and a decision changes a row that is pending.
abbrev pub spec_step : String → Event → Option Approval → Option Approval
spec_step k (requests counted inserted now a) o =
    if counted && inserted then or_appended k (inserted_row now a) o else o
spec_step k (decides executed now id status decided_by) o =
    if executed then decided_in now (silent id status decided_by) o else o
spec_step k (decides_with_note executed now id status decided_by note) o =
    if executed then decided_in now (with_note id status decided_by note) o else o

abbrev pub spec_run : String → List Event → Option Approval → Option Approval
spec_run k [] o = o
spec_run k (e ∷ events) o = spec_run k events (spec_step k e o)

-- A row is there already, so nothing is appended.
kept_appended :
    (k : String) (a b : Approval) (rows : List Approval)
    → find a.id rows ≡ some b
    → or_appended k a (find k rows) ≡ find k rows
kept_appended k a b rows h = elim (Option-cases (find k rows)) [
  | inr (c, s) ↦ rw s refl
  | inl n ↦ elim (Bool-cases (str_eq a.id k)) [
    | inl e ↦ let h' = rw ((eq_iff a.id k).0 e) at h in cc
    | inr d ↦ rw n (rw d refl)
  ]
]

find-decide :
    (k : String) (executed : Bool) (now : ℕ) (d : Decision) (rows : List Approval)
    → find k (decide executed now d rows).0
      ≡ (if executed then decided_in now d (find k rows) else find k rows)
unfolding decide
find-decide k true now d rows = find-update k now d rows
find-decide k false now d rows = refl

find-upsert_approval :
    (k : String) (counted inserted : Bool) (now : ℕ) (a : Approval) (rows : List Approval)
    → find k (upsert_approval counted inserted now a rows).0 ≡ (
        if counted && inserted
        then or_appended k (inserted_row now a) (find k rows)
        else find k rows)
unfolding upsert_approval
find-upsert_approval k false inserted now a rows = refl
find-upsert_approval k true inserted now a rows = elim (Bool-cases (count a.id rows == 0)) [
  | inr there ↦
      let (b, h) = counted_some a.id rows there in
      let kept = kept_appended k (inserted_row now a) b rows h in ground arith
  | inl new ↦ let appended = find-append k (inserted_row now a) rows in ground arith
]

find-step :
    (k : String) (e : Event) (rows : List Approval)
    → find k (step e rows) ≡ spec_step k e (find k rows)
unfolding step decide_approval decide_approval_with_note
find-step k (requests counted inserted now a) rows =
    find-upsert_approval k counted inserted now a rows
find-step k (decides executed now id status decided_by) rows =
    find-decide k executed now (silent id status decided_by) rows
find-step k (decides_with_note executed now id status decided_by note) rows =
    find-decide k executed now (with_note id status decided_by note) rows

-- The first row of an id after any calls is what these calls make of the row that was there.
pub find-run :
    (k : String) (events : List Event) (rows : List Approval)
    → find k (run events rows) ≡ spec_run k events (find k rows)
unfolding run
find-run k [] rows = refl
find-run k (e ∷ events) rows =
    find-run k events (step e rows) ∙ ap (λ o. spec_run k events o) (find-step k e rows)

decided_in-closed :
    (now : ℕ) (d : Decision) (a : Approval)
    → str_eq a.status pending ≡ false
    → decided_in now d (some a) ≡ some a
decided_in-closed now d a h = ground arith

spec_step-closed :
    (k : String) (e : Event) (a : Approval)
    → str_eq a.status pending ≡ false
    → spec_step k e (some a) ≡ some a
spec_step-closed k (requests counted inserted now b) a h = ground arith
spec_step-closed k (decides executed now id status decided_by) a h =
    let c = decided_in-closed now (silent id status decided_by) a h in ground arith
spec_step-closed k (decides_with_note executed now id status decided_by note) a h =
    let c = decided_in-closed now (with_note id status decided_by note) a h in ground arith

spec_run-closed :
    (k : String) (events : List Event) (a : Approval)
    → str_eq a.status pending ≡ false
    → spec_run k events (some a) ≡ some a
spec_run-closed k [] a h = refl
spec_run-closed k (e ∷ events) a h =
    ap (λ o. spec_run k events o) (spec_step-closed k e a h) ∙ spec_run-closed k events a h

-- A decision is final: once an approval is no longer pending, its row stays as it is, whatever is
-- requested and decided after that, under the same id too.
pub find-run_closed :
    (k : String) (events : List Event) (rows : List Approval) (a : Approval)
    → find k rows ≡ some a
    → str_eq a.status pending ≡ false
    → find k (run events rows) ≡ some a
find-run_closed k events rows a h c =
    find-run k events rows ∙ ap (λ o. spec_run k events o) h ∙ spec_run-closed k events a c
