-- ===== src/Store/Approvals/AsMap.antt =====
-- What the calls on the table of approvals mean for a map from an id to at most one row, told without the
-- table.
use famclaw.Prelude.{ℕ, ◌+◌, ◌&&◌, String, Option, none, some, List, [], ◌∷◌, if◌then◌else◌}
use famclaw.Prelude.Text.{str_eq}
use famclaw.Store.Approvals.{Approval, Event, requests, decides, decides_with_note}

-- All rows of an id, in the order of the table.
abbrev pub rows_of : String → List Approval → List Approval
rows_of k [] = []
rows_of k (a ∷ rows) = if str_eq a.id k then a ∷ rows_of k rows else rows_of k rows

abbrev pub rows_as : Option Approval → List Approval
rows_as none = []
rows_as (some a) = a ∷ []

-- A request makes a row where there is none, and leaves one that is there as it is. The new row is
-- pending, expires in a day and nobody has decided it.
abbrev pub requested : String → ℕ → Approval → Option Approval → Option Approval
requested k now a (some b) = some b
requested k now a none =
    if str_eq a.id k
    then some (record {
      id = a.id;
      user_name = a.user_name;
      user_display = a.user_display;
      age_group = a.age_group;
      category = a.category;
      query_text = a.query_text;
      status = "pending";
      created_at = now;
      updated_at = now;
      expires_at = now + 86400;
      decided_by = "";
      decision_note = "";
    })
    else none

abbrev pub noted : Option String → String → String
noted none old = old
noted (some text) old = text

-- A decision on an id changes the row of this id, if there is one and it is pending.
abbrev pub settled :
    String → ℕ → (id status decided_by : String) → Option String → Option Approval → Option Approval
settled k now id status decided_by text none = none
settled k now id status decided_by text (some b) =
    if str_eq id k && str_eq b.status "pending"
    then some (record {
      id = b.id;
      user_name = b.user_name;
      user_display = b.user_display;
      age_group = b.age_group;
      category = b.category;
      query_text = b.query_text;
      status = status;
      created_at = b.created_at;
      updated_at = now;
      expires_at = b.expires_at;
      decided_by = decided_by;
      decision_note = noted text b.decision_note;
    })
    else some b

-- What a call means for the entry of one id in the map; a call that fails means nothing.
abbrev pub map_step : String → Event → Option Approval → Option Approval
map_step k (requests counted inserted now a) o =
    if counted && inserted then requested k now a o else o
map_step k (decides executed now id status decided_by) o =
    if executed then settled k now id status decided_by none o else o
map_step k (decides_with_note executed now id status decided_by note) o =
    if executed then settled k now id status decided_by (some note) o else o

abbrev pub map_run : String → List Event → Option Approval → Option Approval
map_run k [] o = o
map_run k (e ∷ events) o = map_run k events (map_step k e o)
