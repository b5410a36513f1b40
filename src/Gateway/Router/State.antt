-- ===== src/Gateway/Router/State.antt =====
-- What the router is given, its state, and its messages. A time is the number of its seconds.
use Prim.Native.Char.{code}
use Prim.Native.String.{◌++◌ as ◌⧺◌}
use famclaw.Prelude.{ℕ, Bool, ◌&&◌, String, Option, none, some, List, [], ◌∷◌, if◌then◌else◌}
use famclaw.Prelude.Text.{str_eq, codes, equal_fold, is_space}
use famclaw.Store.Approvals.{Approval, Shown}
use famclaw.Store.Roles.{RoleOverride}
use famclaw.Store.Accounts.{GatewayAccount, UnknownAccount}

pub record UserConfig : Type 0 where
  pub name : String
  pub display_name : String
  pub role : String
  pub age_group : String

unfoldable pub get_user : List UserConfig → String → Option UserConfig
get_user [] name = none
get_user (u ∷ users) name =
    if equal_fold (codes u.name) (codes name) then some u else get_user users name

pub record Attachment : Type 0 where
  pub kind : String
  pub content : String
  pub mime_type : String

pub record Message : Type 0 where
  pub gateway : String
  pub external_id : String
  pub text : String
  pub display_name : String
  pub group_id : String
  pub is_group : Bool
  pub attachments : List Attachment

pub record Reply : Type 0 where
  pub text : String
  pub policy_action : String

pub record MsgContext : Type 0 where
  pub gateway : String
  pub external_id : String
  pub group_id : String
  pub is_group : Bool
  pub attachments : List Attachment
  pub conv_id : String

-- The parts of `policy.Input`; the approvals are nil if they could not be read.
pub record PolicyInput : Type 0 where
  pub role : String
  pub age_group : String
  pub name : String
  pub category : String
  pub text : String
  pub request_id : String
  pub approvals : Option (String → Option Shown)

pub record Decision : Type 0 where
  pub action : String
  pub reason : String

pub data ChatResult : Type 0 where
  answered : String → ChatResult
  args_truncated chat_failed : ChatResult

pub record LastMessage : Type 0 where
  pub conv_id : String
  pub at : ℕ
  pub has_last : Bool

-- The registry of skills, as far as its calls succeed.
pub record Registry : Type 0 where
  pub list : Option (List (String × String))
  pub install : List ℕ → Option String
  pub enable : List ℕ → Bool
  pub disable : List ℕ → Bool

-- What the router is given, and what the calls outside of it answer to one message.
pub record Env : Type 0 where
  pub users : List UserConfig
  pub has_notifier : Bool
  pub has_registry : Bool
  pub registry : Registry
  pub mcp_command : String → List (List ℕ) → Reply
  pub transcriber : Option (List ℕ → String → Option String)
  -- `base64.StdEncoding.DecodeString`, `approvalID` with its day, and the hash of ConversationID
  pub base64_decode : String → Option (List ℕ)
  pub approval_id : String → String → String
  pub fresh_conv_id : String → ℕ → String
  pub classify : String → String
  pub evaluate : PolicyInput → Option Decision
  pub chat : UserConfig → String → MsgContext → ChatResult
  pub resolves : Bool
  pub last_message : String → Option LastMessage
  pub approvals_read : Bool
  pub scanned : Approval → Bool
  pub role_read : Bool
  pub counted : Bool
  pub inserted : Bool

-- A call of SaveMessage.
pub record Saved : Type 0 where
  pub conv_id : String
  pub user : String
  pub role : String
  pub text : String
  pub category : String
  pub policy_action : String
  pub gateway : String

pub record PendingRegistration : Type 0 where
  pub key : String
  pub unlinked : List UserConfig
  pub asked_at : ℕ

-- What the router did beyond the tables.
pub data Effect : Type 0 where
  chats : UserConfig → String → MsgContext → Effect
  runs_skill runs_mcp : (actor text : String) → Effect
  notifies : UserConfig → String → Effect

-- The tables and the maps; `saved` and `effects` are the calls that were made, the last one first.
pub record RouterState : Type 0 where
  pub accounts : List GatewayAccount
  pub unknown : List UnknownAccount
  pub pending_regs : List PendingRegistration
  pub approvals : List Approval
  pub overrides : List RoleOverride
  pub saved : List Saved
  pub effects : List Effect

abbrev pub did : Effect → RouterState → RouterState
did e s = record s { effects = e ∷ s.effects }

-- `strings.TrimSpace`, on a text.
unfoldable pub trim_start : String → String
trim_start String.[] = String.[]
trim_start (String.◌∷◌ c s) =
    let rest = trim_start s in if is_space (code c) then rest else String.◌∷◌ c s

unfoldable pub trim_end : String → String
trim_end String.[] = String.[]
trim_end (String.◌∷◌ c s) =
    let rest = trim_end s in
    if str_eq rest "" && is_space (code c) then String.[] else String.◌∷◌ c rest

unfoldable pub trim_text : String → String
unfolding trim_start trim_end
trim_text s = trim_end (trim_start s)

-- `strings.Join(parts, sep)`
unfoldable pub join : String → List String → String
join sep [] = ""
join sep (p ∷ []) = p
join sep (p ∷ q ∷ parts) = p ⧺ (sep ⧺ join sep (q ∷ parts))
