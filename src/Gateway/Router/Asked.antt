-- ===== src/Gateway/Router/Asked.antt =====
-- What the router has to ask before it acts, and the role in effect of the user that it asks for.
use famclaw.Prelude.{
  ◌≡◌, ◌≢◌, refl, sym, ap, ◌∙◌, inl, inr, Bool-cases, Bool, true, false, not, ◌||◌, String, Option,
  none, some, List, arith, if◌then◌else◌,
}
use mathlib.Core.Path.{subst}
use famclaw.Prelude.Text.{str_eq, eq_iff}
use famclaw.Store.Approvals.{Shown}
use famclaw.Store.Roles.{
  RoleAge, RoleOverride, get_effective_role_age, get_role_override, role_row, effective,
}
use famclaw.Store.Roles.Capped.{Capped, effective-Capped}
use famclaw.Gateway.Router.State.{
  UserConfig, get_user, Decision, Env, Effect, chats, runs_skill, runs_mcp, notifies,
}
use famclaw.Gateway.Router.Process.{adjusted, role_of, input_of}

-- The role in effect, or else the one of the configuration.
abbrev pub in_effect : RoleAge → Option RoleAge → RoleAge
in_effect configured none = configured
in_effect configured (some r) = r

-- The policy was asked about this text of this user, with the class of the text, and its decision
-- satisfies `P`. The user is one of the configuration, in the role and the age group that are in effect
-- with these overrides, or in those of the configuration if they cannot be read. The role is that of a
-- parent only if the configuration says so.
pub record Asked (d : Env) (overrides : List RoleOverride) (u : UserConfig) (text : String)
    (P : Decision → Type 0) : Type 0 where
  pub user : String
  pub cfg : UserConfig
  pub known : get_user d.users user ≡ some cfg
  pub same_name : u.name ≡ cfg.name
  pub role_in_effect :
      role_of u
      ≡ in_effect (role_of cfg) (get_effective_role_age d.role_read user (role_of cfg) overrides)
  pub no_promotion : u.role ≡ "parent" → cfg.role ≡ "parent"
  pub shown : Option (String → Option Shown)
  pub decision : Decision
  pub evaluated : d.evaluate (input_of d user u text shown) ≡ some decision
  pub satisfies : P decision

-- A decision that is none of the three that stop a message.
abbrev pub IsPassing : Decision → Type 0
IsPassing decision =
    (decision.action ≢ "block")
    × (decision.action ≢ "request_approval")
    × (decision.action ≢ "pending")

abbrev pub Requests : Decision → Type 0
Requests decision = decision.action ≡ "request_approval"

-- A command of a parent.
abbrev pub ByParent : Env → List RoleOverride → String → String → Type 0
ByParent d o actor text =
    (u : UserConfig) × (u.name ≡ actor) × (u.role ≡ "parent") × Asked d o u text IsPassing

abbrev pub Granted : Env → List RoleOverride → Effect → Type 0
Granted d o (chats u text _) = Asked d o u text IsPassing
Granted d o (runs_skill actor text) = ByParent d o actor text
Granted d o (runs_mcp actor text) = ByParent d o actor text
Granted d o (notifies u _) = (u.role ≢ "parent") × ((text : String) × Asked d o u text Requests)

pub not_same : (x y : String) → str_eq x y ≡ false → x ≢ y
not_same x y n e = let t = (eq_iff x y).1 e in cc

pub read_Capped :
    (read : Bool) (user : String) (cfg r : RoleAge) (rows : List RoleOverride)
    → get_effective_role_age read user cfg rows ≡ some r
    → Capped cfg r
unfolding get_effective_role_age get_role_override
read_Capped false user cfg r rows e = cc
read_Capped true user cfg r rows e =
    let same : effective cfg (role_row user rows) ≡ r =
      ap (λ o. elim o [ some q ↦ q | none ↦ r ]) e in
    subst (λ q. Capped cfg q) same (effective-Capped cfg (role_row user rows))

abbrev age_in : String → String → RoleAge
age_in age role = record { role = role; age_group = age }

pub adjusted_name : (cfg : UserConfig) (o : Option RoleAge) → (adjusted cfg o).name ≡ cfg.name
adjusted_name cfg none = refl
adjusted_name cfg (some r) = ground arith

pub adjusted_if :
    (b : Bool) (cfg : UserConfig) (r : RoleAge)
    → Capped (role_of cfg) r
    → (if b then record cfg { role = r.role; age_group = r.age_group } else cfg).role ≡ "parent"
    → cfg.role ≡ "parent"
adjusted_if true cfg r c h = c.no_promotion h
adjusted_if false cfg r c h = h

pub role_of-adjusted :
    (cfg : UserConfig) (o : Option RoleAge) → role_of (adjusted cfg o) ≡ in_effect (role_of cfg) o
role_of-adjusted cfg none = refl
role_of-adjusted cfg (some r) =
    elim (Bool-cases (not (str_eq r.role cfg.role) || not (str_eq r.age_group cfg.age_group))) [
      | inl other ↦ rw other refl
      | inr same ↦
          let e : r.role ≡ cfg.role = (eq_iff r.role cfg.role).0 (ground arith) in
          let f : r.age_group ≡ cfg.age_group =
            (eq_iff r.age_group cfg.age_group).0 (ground arith) in
          rw same (ap (λ x. age_in cfg.age_group x) (sym e) ∙ ap (λ x. age_in x r.role) (sym f))
    ]
