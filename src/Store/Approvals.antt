-- ===== src/Store/Approvals.antt =====
-- The table of the requests for approval: UpsertApproval, GetApproval, the two ways to decide, and
-- what the policy is shown.
pub mod Final
pub mod Policy
pub mod AsMap
pub mod Unique
use famclaw.Prelude.{
  ℕ, suc, ◌+◌, ◌*◌, ◌≡◌, refl, Bool, true, false, not, ◌&&◌, String, Option, none, some, List, [],
  ◌∷◌, ◌++◌, ◌==◌, if◌then◌else◌,
}
use famclaw.Prelude.Text.{str_eq}

pub record Approval : Type 0 where
  pub id : String
  pub user_name : String
  pub user_display : String
  pub age_group : String
  pub category : String
  pub query_text : String
  pub status : String
  pub created_at : ℕ
  pub updated_at : ℕ
  pub expires_at : ℕ
  pub decided_by : String
  pub decision_note : String

abbrev pub pending : String
pending = "pending"

abbrev pub day : ℕ
day = 24 * 3600

unfoldable pub find : String → List Approval → Option Approval
find id [] = none
find id (a ∷ rows) = if str_eq a.id id then some a else find id rows

-- `SELECT COUNT(*) FROM approvals WHERE id = ?`
unfoldable pub count : String → List Approval → ℕ
count id [] = 0
count id (a ∷ rows) = if str_eq a.id id then suc (count id rows) else count id rows

-- The row that the INSERT makes of a request.
abbrev pub inserted_row : ℕ → Approval → Approval
inserted_row now a = record a {
  status = pending;
  created_at = now;
  updated_at = now;
  expires_at = now + day;
  decided_by = "";
  decision_note = "";
}

-- Whether the row is new, `none` for an error.
unfoldable pub upsert_approval :
    (counted inserted : Bool) → ℕ → Approval → List Approval → List Approval × Option Bool
unfolding count
upsert_approval counted inserted now a rows =
    if not counted
    then (rows, none)
    else if not (count a.id rows == 0)
    then (rows, some false)
    else if not inserted
    then (rows, none)
    else (rows ++ inserted_row now a ∷ [], some true)

pub data GetResult : Type 0 where
  get_error no_row : GetResult
  got : Approval → GetResult

unfoldable pub get_approval : Bool → String → List Approval → GetResult
get_approval read id rows =
    if not read then get_error else elim (find id rows) [ some a ↦ got a | none ↦ no_row ]

-- What a decision sets; the note is left as it is by DecideApproval.
pub record Decision : Type 0 where
  pub id : String
  pub status : String
  pub decided_by : String
  pub note : Option String

abbrev pub note_after : Option String → String → String
note_after none old = old
note_after (some new) old = new

abbrev pub decided_row : ℕ → Decision → Approval → Approval
decided_row now d a = record a {
  status = d.status;
  decided_by = d.decided_by;
  updated_at = now;
  decision_note = note_after d.note a.decision_note;
}

abbrev pub silent : (id status decided_by : String) → Decision
silent id status decided_by = record {
  id = id;
  status = status;
  decided_by = decided_by;
  note = none;
}

abbrev pub with_note : (id status decided_by note : String) → Decision
with_note id status decided_by note = record {
  id = id;
  status = status;
  decided_by = decided_by;
  note = some note;
}

-- `WHERE id = ? AND status = 'pending'`
abbrev pub is_open : Decision → Approval → Bool
is_open d a = str_eq a.id d.id && str_eq a.status pending

unfoldable pub update : ℕ → Decision → List Approval → List Approval
update now d [] = []
update now d (a ∷ rows) = (if is_open d a then decided_row now d a else a) ∷ update now d rows

unfoldable pub rows_affected : Decision → List Approval → ℕ
rows_affected d [] = 0
rows_affected d (a ∷ rows) =
    if is_open d a then suc (rows_affected d rows) else rows_affected d rows

pub data DecideError : Type 0 where
  database_error already_decided : DecideError

unfoldable pub decide : Bool → ℕ → Decision → List Approval → List Approval × Option DecideError
unfolding update rows_affected
decide executed now d rows =
    if not executed
    then (rows, some database_error)
    else (update now d rows, if rows_affected d rows == 0 then some already_decided else none)

unfoldable pub decide_approval :
    Bool → ℕ → (id status decided_by : String) → List Approval → List Approval × Option DecideError
unfolding decide
decide_approval executed now id status decided_by rows =
    decide executed now (silent id status decided_by) rows

unfoldable pub decide_approval_with_note :
    Bool
    → ℕ
    → (id status decided_by note : String) → List Approval
    → List Approval × Option DecideError
unfolding decide
decide_approval_with_note executed now id status decided_by note rows =
    decide executed now (with_note id status decided_by note) rows

-- What the policy is shown of an approval.
pub record Shown : Type 0 where
  pub status : String
  pub decided_by : String

-- The loop over the rows; a row that cannot be scanned is left out, and a later one of the same id
-- takes the place of an earlier.
unfoldable pub shown_rows :
    (Approval → Bool) → List Approval → (String → Option Shown) → String → Option Shown
shown_rows scanned [] out = out
shown_rows scanned (a ∷ rows) out = shown_rows scanned rows (
    if scanned a
    then (λ id.
        if str_eq a.id id
        then some (record { status = a.status; decided_by = a.decided_by })
        else out id)
    else out)

unfoldable pub all_approvals_for_opa :
    Bool → (Approval → Bool) → List Approval → Option (String → Option Shown)
all_approvals_for_opa read scanned rows =
    if read then some (shown_rows scanned rows (λ id. none)) else none

-- The calls that change the table, in the order in which the database makes them.
pub data Event : Type 0 where
  requests : (counted inserted : Bool) → ℕ → Approval → Event
  decides : Bool → ℕ → (id status decided_by : String) → Event
  decides_with_note : Bool → ℕ → (id status decided_by note : String) → Event

unfoldable pub step : Event → List Approval → List Approval
unfolding upsert_approval decide_approval decide_approval_with_note
step (requests counted inserted now a) rows = (upsert_approval counted inserted now a rows).0
step (decides executed now id status decided_by) rows =
    (decide_approval executed now id status decided_by rows).0
step (decides_with_note executed now id status decided_by note) rows =
    (decide_approval_with_note executed now id status decided_by note rows).0

unfoldable pub run : List Event → List Approval → List Approval
run [] rows = rows
run (e ∷ events) rows = run events (step e rows)
