-- ===== src/Store/Roles.antt =====
-- The table user_role_overrides and the role that a user has in effect.
pub mod Capped
use famclaw.Prelude.{
  Bool, true, false, not, ◌&&◌, ◌||◌, String, Option, none, some, List, [], ◌∷◌, ◌++◌,
  if◌then◌else◌,
}
use famclaw.Prelude.Text.{str_eq}

pub record RoleOverride : Type 0 where
  pub user_name : String
  pub role : String
  pub age_group : String
  pub set_by : String

pub record RoleAge : Type 0 where
  pub role : String
  pub age_group : String

unfoldable pub remove_user : String → List RoleOverride → List RoleOverride
remove_user user [] = []
remove_user user (o ∷ rows) =
    if str_eq o.user_name user then remove_user user rows else o ∷ remove_user user rows

-- INSERT OR REPLACE; whether it succeeded.
unfoldable pub set_role_override :
    Bool → RoleOverride → List RoleOverride → List RoleOverride × Bool
unfolding remove_user
set_role_override executed o rows =
    if executed then (remove_user o.user_name rows ++ o ∷ [], true) else (rows, false)

unfoldable pub delete_role_override : Bool → String → List RoleOverride → List RoleOverride × Bool
unfolding remove_user
delete_role_override executed user rows =
    if executed then (remove_user user rows, true) else (rows, false)

unfoldable pub role_row : String → List RoleOverride → RoleAge
role_row user [] = record { role = ""; age_group = "" }
role_row user (o ∷ rows) =
    if str_eq o.user_name user
    then record { role = o.role; age_group = o.age_group }
    else role_row user rows

-- `none` for an error of the database.
unfoldable pub get_role_override : Bool → String → List RoleOverride → Option RoleAge
unfolding role_row
get_role_override read user rows = if read then some (role_row user rows) else none

abbrev pub is_cohort : String → Bool
is_cohort role = str_eq role "under_8" || str_eq role "age_8_12" || str_eq role "age_13_17"

unfoldable pub normalised_role : String → String
normalised_role role = if is_cohort role then "child" else role

unfoldable pub capped_role : String → String → String
capped_role cfg_role role =
    if str_eq role "parent" && not (str_eq cfg_role "parent") then "child" else role

abbrev pub or_config : String → String → String
or_config cfg value = if str_eq value "" then cfg else value

abbrev pub cohort_of : String → String → String
cohort_of role age_group = if str_eq role "parent" then "" else age_group

unfoldable pub effective : RoleAge → RoleAge → RoleAge
unfolding normalised_role capped_role
effective cfg o =
    let role = or_config cfg.role (capped_role cfg.role (normalised_role o.role)) in
    record { role = role; age_group = cohort_of role (or_config cfg.age_group o.age_group) }

unfoldable pub get_effective_role_age : Bool → String → RoleAge → List RoleOverride → Option RoleAge
unfolding get_role_override effective
get_effective_role_age read user cfg rows = elim (get_role_override read user rows) [
  | none ↦ none
  | some o ↦ some (effective cfg o)
]

-- The calls that change the table.
pub data Event : Type 0 where
  sets : Bool → RoleOverride → Event
  deletes : Bool → String → Event

unfoldable pub step : Event → List RoleOverride → List RoleOverride
unfolding set_role_override delete_role_override
step (sets executed o) rows = (set_role_override executed o rows).0
step (deletes executed user) rows = (delete_role_override executed user rows).0

unfoldable pub run : List Event → List RoleOverride → List RoleOverride
run [] rows = rows
run (e ∷ events) rows = run events (step e rows)
