-- ===== src/Gateway/Router/Registration.antt =====
-- The registration of an account that nobody owns: `handleUnknownAccount`, `handleRegistrationReply`
-- and `cleanExpiredPending`, and `Handle`, which decides between them and the pipeline.
use Prim.Native.String.{◌++◌ as ◌⧺◌}
use famclaw.Prelude.{
  ℕ, zero, suc, ◌+◌, Bool, not, ◌&&◌, ◌||◌, String, Option, none, some, List, [], ◌∷◌, ◌==◌, ltb,
  length, if◌then◌else◌,
}
use famclaw.Prelude.Text.{str_eq, codes, equal_fold, trim_space}
use famclaw.Notify.Decimal.{Signed, nonneg, parse_int, format_int}
use famclaw.Store.Accounts.{
  lower_name, GatewayAccount, link_account, has_gateway_account, record_unknown, clear_unknown,
}
use famclaw.Gateway.Router.State.{
  UserConfig, get_user, Message, Reply, Env, PendingRegistration, RouterState,
}
use famclaw.Gateway.Router.Process.{resolve, process, unknown_account_message}

abbrev reply : String → Reply
reply text = record { text = text; policy_action = "onboarding" }

abbrev pub five_minutes : ℕ
five_minutes = 300

abbrev pub pending_key : Message → String
pending_key msg = msg.gateway ⧺ (":" ⧺ msg.external_id)

unfoldable pub find_pending : String → List PendingRegistration → Option PendingRegistration
find_pending key [] = none
find_pending key (p ∷ regs) = if str_eq p.key key then some p else find_pending key regs

unfoldable pub delete_pending : String → List PendingRegistration → List PendingRegistration
delete_pending key [] = []
delete_pending key (p ∷ regs) =
    let rest = delete_pending key regs in if str_eq p.key key then rest else p ∷ rest

unfoldable pub clean_expired_pending : ℕ → List PendingRegistration → List PendingRegistration
clean_expired_pending now [] = []
clean_expired_pending now (p ∷ regs) =
    let rest = clean_expired_pending now regs in
    if ltb (p.asked_at + five_minutes) now then rest else p ∷ rest

-- Which of the calls of the identity store succeed; of `has_gateway_account`, for each user.
pub record Identity : Type 0 where
  pub recorded : Bool
  pub counted : String → Bool
  pub linked : Bool
  pub cleared : Bool

unfoldable pub unlinked_users :
    Identity → List ℕ → List GatewayAccount → List UserConfig → List UserConfig
unlinked_users i gateway accounts [] = []
unlinked_users i gateway accounts (u ∷ users) =
    let rest = unlinked_users i gateway accounts users in
    if i.counted u.name && has_gateway_account u.name gateway accounts then rest else u ∷ rest

unfoldable pub without_parents : List UserConfig → List UserConfig
without_parents [] = []
without_parents (u ∷ users) =
    let rest = without_parents users in if str_eq u.role "parent" then rest else u ∷ rest

-- The bytes before the first space.
unfoldable pub first_word : List ℕ → List ℕ
first_word [] = []
first_word (c ∷ s) = let rest = first_word s in if c == b' ' then [] else c ∷ rest

abbrev pub has_display_name : String → UserConfig → Bool
has_display_name name u =
    equal_fold (codes u.display_name) (codes name)
    || equal_fold (codes u.name) (codes name)
    || equal_fold (codes u.display_name) (first_word (codes name))

unfoldable pub find_by_name : String → List UserConfig → Option UserConfig
find_by_name name [] = none
find_by_name name (u ∷ users) = if has_display_name name u then some u else find_by_name name users

-- LinkAccount and ClearUnknown; the registration is deleted where the code does so.
unfoldable pub link_user : Identity → UserConfig → Message → RouterState → RouterState
link_user i u msg s = record s {
  accounts = link_account u.name (lower_name msg.gateway) msg.external_id s.accounts;
  unknown =
      if i.cleared
      then clear_unknown (lower_name msg.gateway) msg.external_id s.unknown
      else s.unknown;
}

abbrev pub nth_user : ℕ → List UserConfig → Option UserConfig
nth_user n [] = none
nth_user zero (u ∷ users) = some u
nth_user (suc n) (u ∷ users) = nth_user n users

-- The user of a choice between 1 and the number of users.
unfoldable pub chosen_user : Option Signed → List UserConfig → Option UserConfig
chosen_user (some (nonneg (suc n))) users = nth_user n users
chosen_user _ users = none

-- `shown` makes a text of bytes, for the numbers in an answer; `count` is the length of the list.
unfoldable pub after_choice :
    (List ℕ → String)
    → Identity
    → Message
    → ℕ
    → Option UserConfig
    → RouterState
    → RouterState × Reply
unfolding link_user delete_pending
after_choice shown i msg count none s =
    (s, reply ("Please reply with a number between 1 and " ⧺ (shown (format_int count) ⧺ ".")))
after_choice shown i msg count (some u) s =
    if not i.linked
    then (s, reply "Something went wrong. Please try again.")
    else (let s' = record s { pending_regs = delete_pending (pending_key msg) s.pending_regs } in
        (
          link_user i u msg s',
          reply (
              "Welcome, "
              ⧺ (u.display_name ⧺ "! Your account is now linked. You can start chatting!")),
        ))

unfoldable pub handle_registration_reply :
    (List ℕ → String) → Identity → Message → PendingRegistration → RouterState → RouterState × Reply
unfolding chosen_user after_choice trim_space
handle_registration_reply shown i msg pending s =
    after_choice shown i msg (length pending.unlinked)
      (chosen_user (parse_int (trim_space (codes msg.text))) pending.unlinked) s

-- The lines of the list, from the number `n` on.
unfoldable pub options : (List ℕ → String) → ℕ → List UserConfig → String
options shown n [] = ""
options shown n (u ∷ users) =
    shown (format_int n) ⧺ (". " ⧺ (u.display_name ⧺ ("\n" ⧺ options shown (suc n) users)))

abbrev greeting : String → String
greeting name = if str_eq name "" then "Hi" else "Hi " ⧺ name

-- The list that is shown, and remembered under the account.
unfoldable pub ask :
    (List ℕ → String) → ℕ → Message → List UserConfig → RouterState → RouterState × Reply
unfolding delete_pending options
ask shown now msg [] s = (
  s,
  reply
      "This bot belongs to a private family. If you're a family member, ask a parent to add your account in the FamClaw dashboard.",
)
ask shown now msg (u ∷ users) s = (
  record s {
    pending_regs =
        record { key = pending_key msg; unlinked = u ∷ users; asked_at = now }
        ∷ delete_pending (pending_key msg) s.pending_regs;
  },
  reply (
      greeting msg.display_name
      ⧺ ("! Which family member are you?\n\n" ⧺ options shown 1 (u ∷ users))),
)

unfoldable pub after_match :
    (List ℕ → String)
    → Identity
    → ℕ
    → Message
    → List UserConfig
    → Option UserConfig
    → RouterState
    → RouterState × Reply
unfolding link_user ask
after_match shown i now msg unlinked none s = ask shown now msg unlinked s
after_match shown i now msg unlinked (some u) s =
    if not i.linked
    then (s, reply "Something went wrong linking your account. Please try again.")
    else (
      link_user i u msg s,
      reply (
          "Hi "
          ⧺ (u.display_name
              ⧺ ("! I matched your "
                  ⧺ (msg.gateway ⧺ " profile and linked your account. You can start chatting!")))),
    )

unfoldable pub register :
    (List ℕ → String) → Identity → ℕ → List UserConfig → Message → RouterState → RouterState × Reply
unfolding without_parents unlinked_users find_by_name after_match
register shown i now users msg s =
    let unlinked = without_parents (unlinked_users i (lower_name msg.gateway) s.accounts users) in
    after_match shown i now msg unlinked
      (if str_eq msg.display_name "" then none else find_by_name msg.display_name unlinked) s

-- Behind the look-up in pendingRegs.
unfoldable pub after_pending :
    (List ℕ → String)
    → Identity
    → ℕ
    → List UserConfig
    → Message
    → Option PendingRegistration
    → RouterState
    → RouterState × Reply
unfolding register handle_registration_reply
after_pending shown i now users msg none s = register shown i now users msg s
after_pending shown i now users msg (some p) s =
    if ltb now (p.asked_at + five_minutes)
    then handle_registration_reply shown i msg p s
    else register shown i now users msg s

unfoldable pub handle_unknown_account :
    (List ℕ → String) → Identity → ℕ → List UserConfig → Message → RouterState → RouterState × Reply
unfolding clean_expired_pending find_pending after_pending
handle_unknown_account shown i now users msg s =
    let s' = record s {
      pending_regs = clean_expired_pending now s.pending_regs;
      unknown =
          if i.recorded
          then record_unknown now (lower_name msg.gateway) msg.external_id msg.display_name
              s.unknown
          else s.unknown;
    } in
    after_pending shown i now users msg (find_pending (pending_key msg) s'.pending_regs) s'

-- `Handle` behind GetUser; its dispatch to the session of the user is the call of `process`.
unfoldable pub dispatch_known :
    (List ℕ → String) → Env → ℕ → Message → Option UserConfig → RouterState → RouterState × Reply
dispatch_known shown d now msg none s = (s, reply unknown_account_message)
dispatch_known shown d now msg (some cfg) s = process shown d now msg s

-- `Handle` behind Resolve.
unfoldable pub after_identity :
    (List ℕ → String)
    → Env
    → Identity
    → ℕ
    → Message
    → Option String
    → RouterState
    → RouterState × Reply
unfolding handle_unknown_account dispatch_known
after_identity shown d i now msg none s =
    (s, record { text = "Something went wrong. Please try again."; policy_action = "error" })
after_identity shown d i now msg (some user) s =
    if str_eq user ""
    then handle_unknown_account shown i now d.users msg s
    else dispatch_known shown d now msg (get_user d.users user) s

unfoldable pub handle :
    (List ℕ → String) → Env → Identity → ℕ → Message → RouterState → RouterState × Reply
unfolding after_identity
handle shown d i now msg s = after_identity shown d i now msg (resolve d msg s) s
