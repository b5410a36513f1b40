-- ===== src/Store/Approvals/Unique.antt =====
-- The table of approvals implements a map: each id has at most one row.
use famclaw.Prelude.{
  ℕ, ◌≡◌, refl, sym, ap, ◌∙◌, inl, inr, Bool, true, false, ◌&&◌, String, Option, none, some, List,
  [], ◌∷◌, ◌++◌, ◌==◌, if◌then◌else◌, Bool-cases, arith, length,
}
use mathlib.Core.Path.{subst}
use famclaw.Prelude.Text.{str_eq, eq_iff, flipped}
use famclaw.Store.Approvals.{
  Approval, count, inserted_row, upsert_approval, Decision, note_after, decided_row, silent,
  with_note, is_open, update, decide, decide_approval, decide_approval_with_note, Event, requests,
  decides, decides_with_note, step, run,
}
use famclaw.Store.Approvals.AsMap.{rows_of, rows_as, requested, noted, settled, map_step, map_run}

-- The rows of an id after an update: those that were there, each changed if it is open.
abbrev update_row : ℕ → Decision → Approval → Approval
update_row now d a = if is_open d a then decided_row now d a else a

abbrev update_all : ℕ → Decision → List Approval → List Approval
update_all now d [] = []
update_all now d (a ∷ rows) = update_row now d a ∷ update_all now d rows

rows_of-update :
    (k : String) (now : ℕ) (d : Decision) (rows : List Approval)
    → rows_of k (update now d rows) ≡ update_all now d (rows_of k rows)
unfolding update
rows_of-update k now d [] = refl
rows_of-update k now d (a ∷ rows) =
    let ih = rows_of-update k now d rows in
    elim (Bool-cases (is_open d a)) [
      | inl o ↦ elim (Bool-cases (str_eq a.id k)) [
        | inl s ↦ rw (o, s, ih) (rw o refl)
        | inr n ↦ rw (o, n) ih
      ]
      | inr c ↦ elim (Bool-cases (str_eq a.id k)) [
        | inl s ↦ rw (c, s, ih) (rw c refl)
        | inr n ↦ rw (c, n) ih
      ]
    ]

rows_of-append :
    (k : String) (a : Approval) (rows : List Approval)
    → rows_of k (rows ++ a ∷ []) ≡ rows_of k rows ++ (if str_eq a.id k then a ∷ [] else [])
rows_of-append k a [] = ground arith
rows_of-append k a (b ∷ rows) = let ih = rows_of-append k a rows in ground arith

count-rows_of : (k : String) (rows : List Approval) → count k rows ≡ length (rows_of k rows)
unfolding count
count-rows_of k [] = refl
count-rows_of k (a ∷ rows) = let ih = count-rows_of k rows in ground (arith, ih)

-- The first row of a list that has one.
abbrev head_or : Approval → List Approval → Approval
head_or a [] = a
head_or a (b ∷ rows) = b

rows_of-id :
    (k : String) (rows : List Approval) (b : Approval)
    → rows_of k rows ≡ b ∷ []
    → str_eq b.id k ≡ true
rows_of-id k [] b e = cc
rows_of-id k (a ∷ rows) b e = elim (Bool-cases (str_eq a.id k)) [
  | inl s ↦ subst (λ (l : List Approval). str_eq (head_or a l).id k ≡ true) (rw s at e) s
  | inr n ↦ rows_of-id k rows b (rw n at e)
]

str_eq_sym : (x y : String) → str_eq x y ≡ str_eq y x
str_eq_sym x y = elim (Bool-cases (str_eq x y)) [
  | inl s ↦ s ∙ sym ((eq_iff y x).1 (sym ((eq_iff x y).0 s)))
  | inr n ↦ n ∙ sym (flipped x y n)
]

-- Under its own id, the test of the statement is the one of the map.
is_open-own :
    (k : String) (d : Decision) (b : Approval)
    → str_eq b.id k ≡ true
    → is_open d b ≡ (str_eq d.id k && str_eq b.status "pending")
is_open-own k d b h =
    ap (λ t. t && str_eq b.status "pending")
      (ap (λ t. str_eq t d.id) ((eq_iff b.id k).0 h) ∙ str_eq_sym k d.id)

note_after-noted : (note : Option String) (old : String) → note_after note old ≡ noted note old
note_after-noted none old = refl
note_after-noted (some text) old = refl

update_all-settled :
    (k : String) (now : ℕ) (d : Decision) (o : Option Approval)
    → ((b : Approval) → o ≡ some b → str_eq b.id k ≡ true)
    → update_all now d (rows_as o) ≡ rows_as (settled k now d.id d.status d.decided_by d.note o)
update_all-settled k now d none h = refl
update_all-settled k now d (some b) h =
    let same = is_open-own k d b (h b refl) in
    elim (Bool-cases (str_eq d.id k && str_eq b.status "pending")) [
      | inl t ↦ rw (same, t) (rw (note_after-noted d.note b.decision_note) refl)
      | inr f ↦ rw (same, f) refl
    ]

-- What is in the table under an id is what the map holds there.
abbrev pub Holds : String → List Approval → Option Approval → Type 0
Holds k rows o = rows_of k rows ≡ rows_as o

own_id :
    (k : String) (rows : List Approval) (o : Option Approval)
    → Holds k rows o
    → (b : Approval) → o ≡ some b
    → str_eq b.id k ≡ true
own_id k rows none h b e = cc
own_id k rows (some c) h b e = rows_of-id k rows b (h ∙ ap rows_as e)

Holds-decide :
    (k : String) (executed : Bool) (now : ℕ) (d : Decision) (rows : List Approval)
    (o : Option Approval)
    → Holds k rows o
    → Holds k
        (decide executed now d rows).0
        (if executed then settled k now d.id d.status d.decided_by d.note o else o)
unfolding decide
Holds-decide k false now d rows o h = h
Holds-decide k true now d rows o h =
    rows_of-update k now d rows
    ∙ ap (update_all now d) h
    ∙ update_all-settled k now d o (own_id k rows o h)

-- A request under another id is nothing to the entry.
requested-other :
    (k : String) (now : ℕ) (a : Approval) (o : Option Approval)
    → str_eq a.id k ≡ false
    → requested k now a o ≡ o
requested-other k now a none h = rw h refl
requested-other k now a (some b) h = refl

Holds-append :
    (k : String) (now : ℕ) (a : Approval) (rows : List Approval) (o : Option Approval)
    → count a.id rows ≡ 0
    → Holds k rows o
    → Holds k (rows ++ inserted_row now a ∷ []) (requested k now a o)
Holds-append k now a rows none z h =
    rows_of-append k (inserted_row now a) rows ∙ rw h (ground arith)
Holds-append k now a rows (some b) z h = elim (Bool-cases (str_eq a.id k)) [
  | inl s ↦
      let one : count a.id rows ≡ 1 =
        ap (λ x. count x rows) ((eq_iff a.id k).0 s) ∙ count-rows_of k rows ∙ ap length h in
      absurd (omega arith)
  | inr n ↦ rows_of-append k (inserted_row now a) rows ∙ rw (h, n) refl
]

requested-there :
    (k : String) (now : ℕ) (a : Approval) (rows : List Approval) (o : Option Approval)
    → (count a.id rows == 0) ≡ false
    → Holds k rows o
    → requested k now a o ≡ o
requested-there k now a rows (some b) c h = refl
requested-there k now a rows none c h = elim (Bool-cases (str_eq a.id k)) [
  | inl s ↦
      let zero_rows : count a.id rows ≡ 0 =
        ap (λ x. count x rows) ((eq_iff a.id k).0 s) ∙ count-rows_of k rows ∙ ap length h in
      ground arith
  | inr n ↦ rw n refl
]

Holds-upsert_approval :
    (k : String) (counted inserted : Bool) (now : ℕ) (a : Approval) (rows : List Approval)
    (o : Option Approval)
    → Holds k rows o
    → Holds k
        (upsert_approval counted inserted now a rows).0
        (if counted && inserted then requested k now a o else o)
unfolding upsert_approval
Holds-upsert_approval k false inserted now a rows o h = h
Holds-upsert_approval k true false now a rows o h = elim (Bool-cases (count a.id rows == 0)) [
  | inl e ↦ rw e h
  | inr n ↦ rw n h
]
Holds-upsert_approval k true true now a rows o h = elim (Bool-cases (count a.id rows == 0)) [
  | inl e ↦ rw e (Holds-append k now a rows o (ground arith) h)
  | inr n ↦ rw (n, requested-there k now a rows o n h) h
]

Holds-step :
    (k : String) (e : Event) (rows : List Approval) (o : Option Approval)
    → Holds k rows o
    → Holds k (step e rows) (map_step k e o)
unfolding step decide_approval decide_approval_with_note
Holds-step k (requests counted inserted now a) rows o =
    Holds-upsert_approval k counted inserted now a rows o
Holds-step k (decides executed now id status decided_by) rows o =
    Holds-decide k executed now (silent id status decided_by) rows o
Holds-step k (decides_with_note executed now id status decided_by note) rows o =
    Holds-decide k executed now (with_note id status decided_by note) rows o

-- The table implements a map from ids to rows: if it holds under an id what the map has there, one row
-- or none, then so it does after any calls, in whatever order and whichever of them fail. In the map a
-- request makes an entry that is pending, for a day, where there is none; a decision changes the
-- status, the decider, the time and, if there is one, the note of an entry that is pending; and a call
-- for another id changes nothing.
pub run-Holds :
    (k : String) (events : List Event) (rows : List Approval) (o : Option Approval)
    → Holds k rows o
    → Holds k (run events rows) (map_run k events o)
unfolding run
run-Holds k [] rows o h = h
run-Holds k (e ∷ events) rows o h =
    run-Holds k events (step e rows) (map_step k e o) (Holds-step k e rows o h)
