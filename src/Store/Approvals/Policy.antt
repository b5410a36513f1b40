-- ===== src/Store/Approvals/Policy.antt =====
-- What the policy is shown of the table of approvals.
use famclaw.Prelude.{
  ℕ, ◌≡◌, refl, sym, ap, ◌∙◌, inl, inr, Bool, true, false, String, Option, none, some, List, [],
  ◌∷◌, ◌++◌, ◌==◌, if◌then◌else◌, Bool-cases,
}
use famclaw.Prelude.Text.{str_eq, eq_iff, flipped}
use famclaw.Store.Approvals.{
  Approval, find, count, inserted_row, upsert_approval, Decision, silent, with_note, is_open,
  update, decide, decide_approval, decide_approval_with_note, Event, requests, decides,
  decides_with_note, step, run, Shown, shown_rows, all_approvals_for_opa,
}
use famclaw.Store.Approvals.Final.{
  counted_none, find-update, find-append, decided_in, or_appended, spec_run, find-run,
}

-- No id stands twice: the table's primary key.
abbrev pub Keyed : List Approval → Type 0
Keyed [] = Unit
Keyed (a ∷ rows) = (find a.id rows ≡ none) × Keyed rows

decided_in-none :
    (now : ℕ) (d : Decision) (o : Option Approval) → o ≡ none → decided_in now d o ≡ none
decided_in-none now d o h = rw h refl

Keyed-update :
    (now : ℕ) (d : Decision) (rows : List Approval) → Keyed rows → Keyed (update now d rows)
unfolding update
Keyed-update now d [] k = tt
Keyed-update now d (a ∷ rows) k =
    let n = find-update a.id now d rows ∙ decided_in-none now d (find a.id rows) k.0 in
    elim (Bool-cases (is_open d a)) [
      | inl o ↦ rw o (n, Keyed-update now d rows k.1)
      | inr c ↦ rw c (n, Keyed-update now d rows k.1)
    ]

Keyed-append :
    (a : Approval) (rows : List Approval)
    → find a.id rows ≡ none
    → Keyed rows
    → Keyed (rows ++ a ∷ [])
unfolding find
Keyed-append a [] n k = (refl, tt)
Keyed-append a (b ∷ rows) n k = elim (Bool-cases (str_eq b.id a.id)) [
  | inl s ↦ let n' = rw s at n in cc
  | inr d ↦
      let f = flipped b.id a.id d in
      (
        find-append b.id a rows ∙ rw (k.0, or_appended) (rw f refl),
        Keyed-append a rows (rw d at n) k.1,
      )
]

Keyed-upsert_approval :
    (counted inserted : Bool) (now : ℕ) (a : Approval) (rows : List Approval)
    → Keyed rows
    → Keyed (upsert_approval counted inserted now a rows).0
unfolding upsert_approval
Keyed-upsert_approval false inserted now a rows k = k
Keyed-upsert_approval true false now a rows k = elim (Bool-cases (count a.id rows == 0)) [
  | inl new ↦ rw new k
  | inr there ↦ rw there k
]
Keyed-upsert_approval true true now a rows k = elim (Bool-cases (count a.id rows == 0)) [
  | inl new ↦ rw new (Keyed-append (inserted_row now a) rows (counted_none a.id rows new) k)
  | inr there ↦ rw there k
]

Keyed-decide :
    (executed : Bool) (now : ℕ) (d : Decision) (rows : List Approval)
    → Keyed rows
    → Keyed (decide executed now d rows).0
unfolding decide
Keyed-decide false now d rows k = k
Keyed-decide true now d rows k = Keyed-update now d rows k

Keyed-step : (e : Event) (rows : List Approval) → Keyed rows → Keyed (step e rows)
unfolding step decide_approval decide_approval_with_note
Keyed-step (requests counted inserted now a) rows k =
    Keyed-upsert_approval counted inserted now a rows k
Keyed-step (decides executed now id status decided_by) rows k =
    Keyed-decide executed now (silent id status decided_by) rows k
Keyed-step (decides_with_note executed now id status decided_by note) rows k =
    Keyed-decide executed now (with_note id status decided_by note) rows k

Keyed-run : (events : List Event) (rows : List Approval) → Keyed rows → Keyed (run events rows)
unfolding run
Keyed-run [] rows k = k
Keyed-run (e ∷ events) rows k = Keyed-run events (step e rows) (Keyed-step e rows k)

-- What is shown of a row, or else what was shown before.
abbrev pub shown_of : (Approval → Bool) → Option Approval → Option Shown → Option Shown
shown_of scanned none o = o
shown_of scanned (some a) o =
    if scanned a then some (record { status = a.status; decided_by = a.decided_by }) else o

shown_of-shown_rows :
    (scanned : Approval → Bool) (rows : List Approval) (out : String → Option Shown) (k : String)
    → Keyed rows
    → shown_rows scanned rows out k ≡ shown_of scanned (find k rows) (out k)
unfolding shown_rows find
shown_of-shown_rows scanned [] out k u = refl
shown_of-shown_rows scanned (a ∷ rows) out k u = elim (Bool-cases (str_eq a.id k)) [
  | inl s ↦
      let n : find k rows ≡ none = ap (λ z. find z rows) (sym ((eq_iff a.id k).0 s)) ∙ u.0 in
      elim (Bool-cases (scanned a)) [
        | inl h ↦ rw (s, h) (shown_of-shown_rows scanned rows _ k u.1 ∙ rw n (rw s refl))
        | inr h ↦ rw (s, h) (shown_of-shown_rows scanned rows _ k u.1 ∙ rw n refl)
      ]
  | inr d ↦ elim (Bool-cases (scanned a)) [
    | inl h ↦
        rw (d, h)
          (shown_of-shown_rows scanned rows _ k u.1
            ∙ ap (λ o. shown_of scanned (find k rows) o) (rw d refl))
    | inr h ↦ rw (d, h) (shown_of-shown_rows scanned rows _ k u.1)
  ]
]

-- What the policy is shown of an id, after any calls from the empty table, is the status and the
-- decider that these calls, told without the table, leave on this id, or nothing if they leave no row
-- there or the row cannot be scanned; and the read either shows every id so or fails as a whole.
pub shown_of-run :
    (scanned : Approval → Bool) (events : List Event) (out : String → Option Shown) (k : String)
    → all_approvals_for_opa true scanned (run events []) ≡ some out
    → out k ≡ shown_of scanned (spec_run k events none) none
unfolding all_approvals_for_opa find
shown_of-run scanned events out k h =
    let same : shown_rows scanned (run events []) (λ id. none) k ≡ out k =
      ap (λ o. elim o [ some f ↦ f k | none ↦ none ]) h in
    sym same
    ∙ shown_of-shown_rows scanned (run events []) (λ id. none) k (Keyed-run events [] tt)
    ∙ ap (λ o. shown_of scanned o none) (find-run k events [])
