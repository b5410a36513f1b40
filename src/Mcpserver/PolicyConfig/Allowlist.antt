-- ===== src/Mcpserver/PolicyConfig/Allowlist.antt =====
-- What a valid policy file allows.
use famclaw.Prelude.{
  ◌≡◌, ◌↔◌, refl, ap, inl, inr, true, false, String, none, List, [], ◌∷◌, arith, Bool-cases,
}
use famclaw.Prelude.Text.{str_eq, eq_iff}
use famclaw.Mcpserver.PolicyConfig.{
  AppEntry, PolicyConfig, normalised_mode, contains, validate_deny, validate_apps, validate,
  mode_of, app_mode, mode_full, mode_read_only, mode_deny,
}

-- An entry of the list for the package, in the mode `full`.
pub data HasFull (pkg : String) : List AppEntry → Type 0 where
  here :
      {app : AppEntry} {apps : List AppEntry}
      → app.package_name ≡ pkg
      → normalised_mode app ≡ mode_full
      → HasFull pkg (app ∷ apps)
  there : {app : AppEntry} {apps : List AppEntry} → HasFull pkg apps → HasFull pkg (app ∷ apps)

read_only_not_full : ¬ (mode_read_only ≡ mode_full)
read_only_not_full e = ground arith

mode_of-HasFull :
    (pkg : String) (apps : List AppEntry) → mode_of pkg apps ≡ mode_full → HasFull pkg apps
unfolding mode_of
mode_of-HasFull pkg [] e = absurd (read_only_not_full e)
mode_of-HasFull pkg (app ∷ apps) e = elim (Bool-cases (str_eq app.package_name pkg)) [
  | inl same ↦ here ((eq_iff app.package_name pkg).0 same) (rw same at e)
  | inr other ↦ there (mode_of-HasFull pkg apps (rw other at e))
]

-- A package that was seen is not denied.
seen_not_deny :
    (pkg : String) (seen deny : List String)
    → contains pkg seen ≡ true
    → validate_deny seen deny ≡ none
    → contains pkg deny ≡ false
unfolding validate_deny contains
seen_not_deny pkg seen [] s v = refl
seen_not_deny pkg seen (d ∷ deny) s v = elim (Bool-cases (str_eq d pkg)) [
  | inl same ↦ let e = ap (λ k. contains k seen) ((eq_iff d pkg).0 same) in ground arith
  | inr other ↦ ground (arith, seen_not_deny pkg (d ∷ seen) deny)
]

-- What one step of the first loop leaves behind.
record Valid (seen : List String) (app : AppEntry) (apps : List AppEntry) (deny : List String)
    : Type 0 where
  fresh : contains app.package_name seen ≡ false
  rest : validate_apps (app.package_name ∷ seen) apps deny ≡ none

validate_apps-Valid :
    (seen : List String) (app : AppEntry) (apps : List AppEntry) (deny : List String)
    → validate_apps seen (app ∷ apps) deny ≡ none
    → Valid seen app apps deny
unfolding validate_apps
validate_apps-Valid seen app apps deny v = record { fresh = ground arith; rest = ground arith }

-- A package that was seen is neither an app nor denied.
not_here :
    (pkg : String) (seen : List String) (app : AppEntry) (apps : List AppEntry)
    → contains pkg seen ≡ true
    → contains app.package_name seen ≡ false
    → ¬ HasFull pkg apps
    → ¬ HasFull pkg (app ∷ apps)
not_here pkg seen app apps s f n (here e m) = let k = ap (λ k. contains k seen) e in ground arith
not_here pkg seen app apps s f n (there h) = n h

seen_not_apps :
    (pkg : String) (seen : List String) (apps : List AppEntry) (deny : List String)
    → contains pkg seen ≡ true
    → validate_apps seen apps deny ≡ none
    → (¬ HasFull pkg apps) × (contains pkg deny ≡ false)
unfolding validate_apps contains
seen_not_apps pkg seen [] deny s v = (λ h. elim h [ ], seen_not_deny pkg seen deny s v)
seen_not_apps pkg seen (app ∷ apps) deny s v =
    let a = validate_apps-Valid seen app apps deny v in
    let ih = seen_not_apps pkg (app.package_name ∷ seen) apps deny (ground arith) a.rest in
    (not_here pkg seen app apps s a.fresh ih.0, ih.1)

valid_HasFull :
    (pkg : String) (seen : List String) (apps : List AppEntry) (deny : List String)
    → validate_apps seen apps deny ≡ none
    → HasFull pkg apps
    → (mode_of pkg apps ≡ mode_full) × (contains pkg deny ≡ false)
unfolding mode_of contains
valid_HasFull pkg seen (app ∷ apps) deny v (here e m) =
    let a = validate_apps-Valid seen app apps deny v in
    let t : str_eq app.package_name pkg ≡ true = (eq_iff app.package_name pkg).1 e in
    (
      rw (t, mode_of) m,
      (seen_not_apps pkg (app.package_name ∷ seen) apps deny (ground arith) a.rest).1,
    )
valid_HasFull pkg seen (app ∷ apps) deny v (there h) =
    let a = validate_apps-Valid seen app apps deny v in
    elim (Bool-cases (str_eq app.package_name pkg)) [
      | inl same ↦
          absurd ((seen_not_apps pkg (app.package_name ∷ seen) apps deny (ground arith) a.rest).0 h)
      | inr other ↦
          let ih = valid_HasFull pkg (app.package_name ∷ seen) apps deny a.rest h in
          (rw (other, mode_of) ih.0, ih.1)
    ]
valid_HasFull pkg seen [] deny v h = elim h [ ]

validate-apps : (c : PolicyConfig) → validate c ≡ none → validate_apps [] c.apps c.deny ≡ none
unfolding validate
validate-apps c v = ground arith

deny_not_full : ¬ (mode_deny ≡ mode_full)
deny_not_full e = ground arith

-- With a policy file that passes the validation, an app is in the mode `full` exactly if it is
-- listed with this mode; in particular it is then not on the deny list, and no other entry hides it.
pub app_mode_full_iff :
    (c : PolicyConfig) (pkg : String)
    → validate c ≡ none
    → (app_mode c pkg ≡ mode_full) ↔ HasFull pkg c.apps
unfolding app_mode
app_mode_full_iff c pkg v = (
  λ e. elim (Bool-cases (contains pkg c.deny)) [
    | inl denied ↦ absurd (deny_not_full (rw denied at e))
    | inr free ↦ mode_of-HasFull pkg c.apps (rw free at e)
  ],
  λ h. let k = valid_HasFull pkg [] c.apps c.deny (validate-apps c v) h in rw k.1 k.0,
)
