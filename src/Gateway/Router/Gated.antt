-- ===== src/Gateway/Router/Gated.antt =====
-- What the router has asked before it calls the model, runs a command or tells the parents.
use famclaw.Prelude.{List, All}
use famclaw.Store.Roles.{RoleOverride}
use famclaw.Gateway.Router.State.{Env, RouterState}
use famclaw.Gateway.Router.Asked.{Asked, Granted}

module _ (d : Env) (overrides : List RoleOverride) where
  -- Everything that the router did was granted, with these overrides.
  abbrev pub AllGranted : RouterState → Type 0
  AllGranted s = All (Granted d overrides) s.effects
