-- ===== src/Store/Accounts.antt =====
-- The tables gateway_accounts and unknown_accounts, as internal/identity/store.go uses them: the name
-- of a gateway is made lower. What a call of the database does not decide is given.
use famclaw.Prelude.{ℕ, suc, Bool, true, false, ◌&&◌, String, List, [], ◌∷◌, if◌then◌else◌}
use famclaw.Prelude.Text.{str_eq, codes, same_text, to_lower}

pub record GatewayAccount : Type 0 where
  pub user_name : String
  pub gateway : List ℕ
  pub external_id : String

-- `strings.ToLower(gateway)`
unfoldable pub lower_name : String → List ℕ
unfolding to_lower
lower_name gateway = to_lower (codes gateway)

-- `WHERE gateway=? AND external_id=?`
abbrev pub is_account : List ℕ → String → GatewayAccount → Bool
is_account gateway external_id a = same_text a.gateway gateway && str_eq a.external_id external_id

-- INSERT … ON CONFLICT DO UPDATE
unfoldable pub link_account : String → List ℕ → String → List GatewayAccount → List GatewayAccount
link_account user gateway external_id [] =
    record { user_name = user; gateway = gateway; external_id = external_id } ∷ []
link_account user gateway external_id (a ∷ rows) =
    if is_account gateway external_id a
    then record a { user_name = user } ∷ rows
    else a ∷ link_account user gateway external_id rows

unfoldable pub resolve_account : List ℕ → String → List GatewayAccount → String
resolve_account gateway external_id [] = ""
resolve_account gateway external_id (a ∷ rows) =
    if is_account gateway external_id a
    then a.user_name
    else resolve_account gateway external_id rows

unfoldable pub has_gateway_account : String → List ℕ → List GatewayAccount → Bool
has_gateway_account user gateway [] = false
has_gateway_account user gateway (a ∷ rows) =
    if str_eq a.user_name user && same_text a.gateway gateway
    then true
    else has_gateway_account user gateway rows

pub record UnknownAccount : Type 0 where
  pub gateway : List ℕ
  pub external_id : String
  pub display_name : String
  pub first_seen : ℕ
  pub last_seen : ℕ
  pub attempts : ℕ

abbrev pub is_unknown : List ℕ → String → UnknownAccount → Bool
is_unknown gateway external_id u = same_text u.gateway gateway && str_eq u.external_id external_id

unfoldable pub record_unknown :
    ℕ → List ℕ → (external_id display_name : String) → List UnknownAccount → List UnknownAccount
record_unknown now gateway external_id display_name [] =
    record {
      gateway = gateway;
      external_id = external_id;
      display_name = display_name;
      first_seen = now;
      last_seen = now;
      attempts = 1;
    }
    ∷ []
record_unknown now gateway external_id display_name (u ∷ rows) =
    if is_unknown gateway external_id u
    then record u {
      display_name = if str_eq u.display_name "" then display_name else u.display_name;
      last_seen = now;
      attempts = suc u.attempts;
    }
      ∷ rows
    else u ∷ record_unknown now gateway external_id display_name rows

unfoldable pub clear_unknown : List ℕ → String → List UnknownAccount → List UnknownAccount
clear_unknown gateway external_id [] = []
clear_unknown gateway external_id (u ∷ rows) =
    if is_unknown gateway external_id u
    then clear_unknown gateway external_id rows
    else u ∷ clear_unknown gateway external_id rows
