-- ===== src/Scenarios/Routing.antt =====
-- Messages through the router: a question that the policy lets pass, and a registration.
use famclaw.Prelude.{
  ℕ, ◌≡◌, refl, sym, ap, true, false, String, none, some, List, [], ◌∷◌, inl, inr, if◌then◌else◌,
  suc, ◌≤◌, length,
}
use famclaw.Prelude.Text.{str_eq, codes}
use famclaw.Store.Accounts.{GatewayAccount}
use famclaw.Gateway.Session.{
  queue_size, Event, enqueues, drops, takes, new_session, enqueue, drop_oldest, take_request, step,
  run, drain,
}
use famclaw.Gateway.Session.Answered.{answers, count, answers-drain}
use famclaw.Gateway.Router.State.{UserConfig, Message, answered, Env, RouterState, Registry}
use famclaw.Gateway.Router.Registration.{Identity, handle}
use famclaw.Gateway.Router.Lookups.{IsConfiguredChild}
use famclaw.Gateway.Router.Children.{Linked, handle-Linked}

abbrev tim : UserConfig
tim = record { name = "tim"; display_name = "Tim"; role = "child"; age_group = "age_8_12" }

abbrev mia : UserConfig
mia = record { name = "mia"; display_name = "Mia"; role = "parent"; age_group = "" }

abbrev no_skills : Registry
no_skills = record {
  list = some [];
  install = λ name. none;
  enable = λ name. false;
  disable = λ name. false;
}

-- The policy lets pass what is of the class "general".
abbrev env : Env
env = record {
  users = tim ∷ mia ∷ [];
  has_notifier = true;
  has_registry = true;
  registry = no_skills;
  mcp_command = λ actor fields. record { text = ""; policy_action = "mcp" };
  transcriber = none;
  base64_decode = λ t. none;
  approval_id = λ user category. "r1";
  fresh_conv_id = λ user now. "c1";
  classify = λ text. "general";
  evaluate = λ input. some (record {
    action = if str_eq input.category "general" then "allow" else "block";
    reason = "";
  });
  chat = λ u text context. answered "hello";
  resolves = true;
  last_message = λ user. none;
  approvals_read = true;
  scanned = λ a. true;
  role_read = true;
  counted = true;
  inserted = true;
}

abbrev message : String → String → String → Message
message account name text = record {
  gateway = "Telegram";
  external_id = account;
  text = text;
  display_name = name;
  group_id = "";
  is_group = false;
  attachments = [];
}

abbrev start : RouterState
start = record {
  accounts = record { user_name = "tim"; gateway = codes "telegram"; external_id = "77" } ∷ [];
  unknown = [];
  pending_regs = [];
  approvals = [];
  overrides = [];
  saved = [];
  effects = [];
}

abbrev text_of : List ℕ → String
text_of l = "1"

abbrev identity : Identity
identity = record { recorded = true; counted = λ user. true; linked = true; cleared = true }

-- Every account is Tim's, who is the one child of the configuration.
abbrev OfTim : GatewayAccount → Type 0
OfTim a = a.user_name ≡ "tim"

only_tim :
    (u : UserConfig) (gateway : List ℕ) (external_id : String)
    → IsConfiguredChild env.users u
    → OfTim (record { user_name = u.name; gateway = gateway; external_id = external_id })
only_tim u gateway external_id (inl e, c) = sym (ap (λ (v : UserConfig). v.name) e)
only_tim u gateway external_id (inr (inl e), c) =
    absurd (c (sym (ap (λ (v : UserConfig). v.role) e)))
only_tim u gateway external_id (inr (inr e), c) = absurd e

handle-Linked_example :
    Linked env OfTim only_tim (handle text_of env identity 1000 (message "88" "Mia" "hi") start).0
handle-Linked_example =
    handle-Linked env OfTim only_tim text_of identity 1000 (message "88" "Mia" "hi") start
      (record { accounts = (refl, tt); shown = tt })

-- Four requests, of which the first is dropped, and the second is being worked on.
abbrev burst : List Event
burst = enqueues 1 ∷ enqueues 2 ∷ enqueues 3 ∷ drops ∷ takes ∷ enqueues 4 ∷ []

after_burst : (run burst new_session).queue ≡ 3 ∷ 4 ∷ []
unfolding run step enqueue drop_oldest take_request
after_burst = refl

answers-drain_example :
    let s = run burst new_session in
    (length s.queue ≤ queue_size)
    × (answers 4 (drain (suc (length s.queue)) s).replies ≡ count 4 s.accepted)
answers-drain_example = answers-drain burst 4
