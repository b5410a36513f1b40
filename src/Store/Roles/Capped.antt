-- ===== src/Store/Roles/Capped.antt =====
-- An override never makes a parent of a user who is none in the configuration, and the last one counts.
use famclaw.Prelude.{
  ◌≡◌, refl, inl, inr, true, false, not, ◌&&◌, String, List, [], ◌∷◌, if◌then◌else◌, Bool-cases,
}
use famclaw.Prelude.Text.{str_eq, eq_iff}
use famclaw.Store.Roles.{
  RoleAge, is_cohort, normalised_role, capped_role, or_config, effective, Event, sets, deletes,
}

-- Two texts that are told apart are not equal.
not_same : (x y : String) → x ≡ y → str_eq x y ≡ false → {A : Type 0} → A
not_same x y e f = let t = (eq_iff x y).1 e in cc

-- The role in effect, computed from a role that is neither empty nor capped.
capped_role-parent : (cfg role : String) → capped_role cfg role ≡ "parent" → cfg ≡ "parent"
unfolding capped_role
capped_role-parent cfg role h = elim (Bool-cases (str_eq cfg "parent")) [
  | inl p ↦ (eq_iff cfg "parent").0 p
  | inr n ↦ elim (Bool-cases (str_eq role "parent")) [
    | inl r ↦ not_same "child" "parent" (rw (r, n) at h) refl
    | inr d ↦ not_same role "parent" (rw d at h) d
  ]
]

or_config-parent :
    (cfg role : String) → or_config cfg (capped_role cfg role) ≡ "parent" → cfg ≡ "parent"
or_config-parent cfg role h = elim (Bool-cases (str_eq (capped_role cfg role) "")) [
  | inl e ↦ rw e at h
  | inr f ↦ capped_role-parent cfg role (rw f at h)
]

no_cohort : (role : String) → is_cohort (normalised_role role) ≡ false
unfolding normalised_role
no_cohort role = elim (Bool-cases (is_cohort role)) [ inl c ↦ rw c refl | inr n ↦ rw n n ]

capped-no_cohort :
    (cfg role : String) → is_cohort role ≡ false → is_cohort (capped_role cfg role) ≡ false
unfolding capped_role
capped-no_cohort cfg role h =
    elim (Bool-cases (str_eq role "parent" && not (str_eq cfg "parent"))) [
      | inl c ↦ rw c refl
      | inr n ↦ rw n h
    ]

or_config-cohort :
    (cfg role : String)
    → is_cohort role ≡ false
    → is_cohort (or_config cfg role) ≡ true
    → or_config cfg role ≡ cfg
or_config-cohort cfg role n c = elim (Bool-cases (str_eq role "")) [
  | inl e ↦ rw e refl
  | inr f ↦ let c' = rw f at c in cc
]

-- What holds of a role in effect: nobody is a parent who is none in the configuration, a parent has
-- no cohort, and an old cohort in the place of the role is none of an override's.
pub record Capped (cfg r : RoleAge) : Type 0 where
  pub no_promotion : r.role ≡ "parent" → cfg.role ≡ "parent"
  pub no_age : r.role ≡ "parent" → r.age_group ≡ ""
  pub no_legacy : is_cohort r.role ≡ true → r.role ≡ cfg.role

pub effective-Capped : (cfg o : RoleAge) → Capped cfg (effective cfg o)
unfolding effective
effective-Capped cfg o = record {
  no_promotion = or_config-parent cfg.role (normalised_role o.role);
  no_age = λ h. rw ((eq_iff _ "parent").1 h) refl;
  no_legacy =
      or_config-cohort cfg.role (capped_role cfg.role (normalised_role o.role))
        (capped-no_cohort cfg.role (normalised_role o.role) (no_cohort o.role));
}

-- What a call means for the override of one user, told without the table.
abbrev pub spec_step : String → Event → RoleAge → RoleAge
spec_step user (sets executed o) r =
    if executed && str_eq o.user_name user
    then record { role = o.role; age_group = o.age_group }
    else r
spec_step user (deletes executed name) r =
    if executed && str_eq name user then record { role = ""; age_group = "" } else r

abbrev pub spec_run : String → List Event → RoleAge → RoleAge
spec_run user [] r = r
spec_run user (e ∷ events) r = spec_run user events (spec_step user e r)
