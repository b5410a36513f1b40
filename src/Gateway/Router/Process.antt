-- ===== src/Gateway/Router/Process.antt =====
-- The pipeline of one message of a known user, `process`: transcription, class, policy, and then a
-- command or the model.
use Prim.Native.String.{◌++◌ as ◌⧺◌}
use famclaw.Prelude.{
  ℕ, Bool, true, false, not, ◌&&◌, ◌||◌, String, Option, none, some, List, [], ◌∷◌, if◌then◌else◌,
  ◌>>=◌,
}
use famclaw.Prelude.Text.{str_eq, codes, equal_fold, split_fields}
use famclaw.Store.Approvals.{Approval, Shown, all_approvals_for_opa, upsert_approval}
use famclaw.Store.Roles.{RoleAge, get_effective_role_age}
use famclaw.Store.Accounts.{lower_name, resolve_account}
use famclaw.Store.Conversation.{conversation_id}
use famclaw.Gateway.Router.State.{
  UserConfig, get_user, Attachment, Message, Reply, MsgContext, PolicyInput, Decision, ChatResult,
  answered, args_truncated, chat_failed, Env, chats, runs_skill, runs_mcp, notifies, RouterState,
  did, trim_text, join,
}
use famclaw.Gateway.Router.Skills.{handle_skill_command}

abbrev pub is_audio : Attachment → Bool
is_audio a = str_eq a.kind "audio"

unfoldable pub has_audio_attachment : List Attachment → Bool
has_audio_attachment [] = false
has_audio_attachment (a ∷ l) = is_audio a || has_audio_attachment l

unfoldable pub filter_image_attachments : List Attachment → List Attachment
filter_image_attachments [] = []
filter_image_attachments (a ∷ l) =
    let rest = filter_image_attachments l in if is_audio a then rest else a ∷ rest

-- The transcript of one audio, `none` for the errors.
unfoldable pub transcribe_one : Env → (List ℕ → String → Option String) → Attachment → Option String
transcribe_one d transcribe a = do
  raw ← d.base64_decode a.content
  transcript ← (elim raw [ [] ↦ none | c ∷ cs ↦ transcribe (c ∷ cs) a.mime_type ])
  let text : String = trim_text transcript in if str_eq text "" then none else some text

unfoldable pub transcribe_all :
    Env → (List ℕ → String → Option String) → List Attachment → Option (List String)
unfolding transcribe_one
transcribe_all d transcribe [] = some []
transcribe_all d transcribe (a ∷ l) =
    let rest = transcribe_all d transcribe l in
    if is_audio a
    then (transcribe_one d transcribe a >>= λ text. rest >>= λ texts. some (text ∷ texts))
    else rest

unfoldable pub transcribe_attachments : Env → List Attachment → String → Option String
unfolding has_audio_attachment transcribe_all
transcribe_attachments d attachments caption =
    if not (has_audio_attachment attachments)
    then some ""
    else (d.transcriber >>= λ transcribe. transcribe_all d transcribe attachments >>= λ texts.
        some (join "\n" (if str_eq caption "" then texts else caption ∷ texts)))

abbrev reply : String → String → Reply
reply action text = record { text = text; policy_action = action }

-- The two calls of SaveMessage on one path.
unfoldable pub save_both :
    String → String → Message → (category action answer : String) → RouterState → RouterState
save_both conv user msg category action answer s = record s {
  saved =
      record {
        conv_id = conv;
        user = user;
        role = "assistant";
        text = answer;
        category = category;
        policy_action = action;
        gateway = msg.gateway;
      }
      ∷ record {
        conv_id = conv;
        user = user;
        role = "user";
        text = msg.text;
        category = category;
        policy_action = action;
        gateway = msg.gateway;
      }
      ∷ s.saved;
}

-- The user with a role in effect that was read, or not.
abbrev pub adjusted : UserConfig → Option RoleAge → UserConfig
adjusted cfg none = cfg
adjusted cfg (some r) =
    if not (str_eq r.role cfg.role) || not (str_eq r.age_group cfg.age_group)
    then record cfg { role = r.role; age_group = r.age_group }
    else cfg

abbrev pub role_of : UserConfig → RoleAge
role_of cfg = record { role = cfg.role; age_group = cfg.age_group }

unfoldable pub adjusted_user : Env → String → UserConfig → RouterState → UserConfig
adjusted_user d user cfg s =
    adjusted cfg (get_effective_role_age d.role_read user (role_of cfg) s.overrides)

-- The row that is asked for.
abbrev pub request_row : UserConfig → (category text request_id : String) → Approval
request_row u category text request_id = record {
  id = request_id;
  user_name = u.name;
  user_display = u.display_name;
  age_group = u.age_group;
  category = category;
  query_text = text;
  status = "";
  created_at = 0;
  updated_at = 0;
  expires_at = 0;
  decided_by = "";
  decision_note = "";
}

-- Behind UpsertApproval; whether it succeeded.
unfoldable pub notify_new :
    Env → UserConfig → String → Option Bool → RouterState → RouterState × Bool
notify_new d u request_id none s = (s, false)
notify_new d u request_id (some is_new) s = (
  if is_new && d.has_notifier && not (str_eq u.role "parent")
      then did (notifies u request_id) s
      else s,
  true,
)

unfoldable pub create_approval :
    Env → ℕ → UserConfig → (category text request_id : String) → RouterState → RouterState × Bool
unfolding notify_new
create_approval d now u category text request_id s =
    let (rows, is_new) =
      upsert_approval d.counted d.inserted now (request_row u category text request_id)
        s.approvals in
    notify_new d u request_id is_new (record s { approvals = rows })

unfoldable pub answer_chat : ChatResult → Reply
answer_chat (answered response) = reply "allow" response
answer_chat args_truncated =
    reply "error" "My tool call got cut off mid-thought. Could you rephrase or try again?"
answer_chat chat_failed = reply "error" "I had trouble thinking of a response. Try again?"

abbrev pub context_of : Message → String → MsgContext
context_of msg conv = record {
  gateway = msg.gateway;
  external_id = msg.external_id;
  group_id = msg.group_id;
  is_group = msg.is_group;
  attachments = msg.attachments;
  conv_id = conv;
}

-- Whether the first field of the text is this word.
unfoldable pub is_command : String → String → Bool
unfolding equal_fold split_fields
is_command word text = elim (split_fields (codes text)) [
  | [] ↦ false
  | first ∷ rest ↦ equal_fold first (codes word)
]

-- Step 5: a command, or the model.
unfoldable pub serve :
    (List ℕ → String) → Env → UserConfig → Message → String → RouterState → RouterState × Reply
unfolding is_command answer_chat
serve shown d u msg conv s =
    if d.has_registry && is_command "skill" msg.text
    then (if not (str_eq u.role "parent")
        then (s, reply "block" "Only a parent can manage skills.")
        else (
          did (runs_skill u.name msg.text) s,
          handle_skill_command shown d.registry (split_fields (codes msg.text)),
        ))
    else if is_command "mcp" msg.text
    then (if not (str_eq u.role "parent")
        then (s, reply "block" "Only a parent can manage MCP servers.")
        else (
          did (runs_mcp u.name msg.text) s,
          d.mcp_command u.name (split_fields (codes msg.text)),
        ))
    else (
      did (chats u msg.text (context_of msg conv)) s,
      answer_chat (d.chat u msg.text (context_of msg conv)),
    )

-- Step 4: the `switch` on the action, which has no default.
unfoldable pub act :
    (List ℕ → String)
    → Env
    → ℕ
    → String
    → UserConfig
    → Message
    → (conv category request_id : String) → Decision
    → RouterState
    → RouterState × Reply
unfolding save_both create_approval serve
act shown d now user u msg conv category request_id decision s =
    if str_eq decision.action "block"
    then (let text : String = "I'm sorry, I can't help with that topic. " ⧺ decision.reason in
        (save_both conv user msg category "block" text s, reply "block" text))
    else if str_eq decision.action "request_approval"
    then (let (s', created) = create_approval d now u category msg.text request_id s in
        let text : String =
          "I've asked a parent to approve this topic for you. They'll get a notification — once they approve, just ask me again!" in
        if created
        then (
          save_both conv user msg category "request_approval" text s',
          reply "request_approval" text,
        )
        else (
          s',
          reply "error" "I was unable to submit your request for approval. Please try again.",
        ))
    else if str_eq decision.action "pending"
    then (let text : String =
          "A parent has already been notified about this request. Once they approve, you can ask me!" in
        (save_both conv user msg category "pending" text s, reply "pending" text))
    else serve shown d u msg conv s

abbrev pub input_of :
    Env → String → UserConfig → String → Option (String → Option Shown) → PolicyInput
input_of d user u text approvals = record {
  role = u.role;
  age_group = u.age_group;
  name = u.name;
  category = d.classify text;
  text = text;
  request_id = d.approval_id user (d.classify text);
  approvals = approvals;
}

-- Behind Evaluate.
unfoldable pub after_evaluate :
    (List ℕ → String)
    → Env
    → ℕ
    → String
    → UserConfig
    → Message
    → String
    → Option Decision
    → RouterState
    → RouterState × Reply
unfolding act
after_evaluate shown d now user u msg conv none s =
    (s, reply "error" "Policy evaluation error. Please try again.")
after_evaluate shown d now user u msg conv (some decision) s =
    act shown d now user u msg conv (d.classify msg.text) (d.approval_id user (d.classify msg.text))
      decision s

unfoldable pub gate :
    (List ℕ → String)
    → Env
    → ℕ
    → String
    → UserConfig
    → Message
    → String
    → RouterState
    → RouterState × Reply
unfolding adjusted_user after_evaluate
gate shown d now user cfg msg conv s =
    let u = adjusted_user d user cfg s in
    let approvals = all_approvals_for_opa d.approvals_read d.scanned s.approvals in
    after_evaluate shown d now user u msg conv (d.evaluate (input_of d user u msg.text approvals)) s

abbrev voice_unavailable : String
voice_unavailable =
    "voice isn't available. Please ask a grown-up to configure voice transcription, or try again later."

unfoldable pub conversation_of : Env → ℕ → String → String
conversation_of d now user = elim (d.last_message user) [
  | none ↦ conversation_id d.fresh_conv_id user 0 false "" now
  | some l ↦ conversation_id d.fresh_conv_id user l.at l.has_last l.conv_id now
]

-- Behind the transcription.
unfoldable pub after_transcription :
    (List ℕ → String)
    → Env
    → ℕ
    → String
    → UserConfig
    → Message
    → String
    → Option String
    → RouterState
    → RouterState × Reply
unfolding gate save_both filter_image_attachments
after_transcription shown d now user cfg msg conv none s =
    (save_both conv user msg "" "error" voice_unavailable s, reply "error" voice_unavailable)
after_transcription shown d now user cfg msg conv (some transcript) s =
    if str_eq transcript ""
    then gate shown d now user cfg msg conv s
    else gate shown d now user cfg
        (record msg { text = transcript; attachments = filter_image_attachments msg.attachments })
        conv s

-- A message whose user is known.
unfoldable pub process_user :
    (List ℕ → String) → Env → ℕ → String → UserConfig → Message → RouterState → RouterState × Reply
unfolding conversation_of transcribe_attachments after_transcription
process_user shown d now user cfg msg s =
    let conv = conversation_of d now user in
    if not (has_audio_attachment msg.attachments)
    then gate shown d now user cfg msg conv s
    else after_transcription shown d now user cfg msg conv
        (transcribe_attachments d msg.attachments msg.text) s

abbrev pub onboarding_message : String
onboarding_message =
    "Welcome to FamClaw! Your account isn't linked yet.\n\nAsk a parent to add your account in the FamClaw dashboard, or message me again — I can usually figure out who you are from your profile name."

abbrev pub unknown_account_message : String
unknown_account_message =
    "I don't recognize this account. Please ask a parent to link it in the FamClaw dashboard."

-- The user of an account, as Resolve gives it: `none` for an error, and an empty name for nobody.
unfoldable pub resolve : Env → Message → RouterState → Option String
unfolding lower_name resolve_account
resolve d msg s =
    if d.resolves
    then some (resolve_account (lower_name msg.gateway) msg.external_id s.accounts)
    else none

-- Behind GetUser.
unfoldable pub after_get_user :
    (List ℕ → String)
    → Env
    → ℕ
    → String
    → Message
    → Option UserConfig
    → RouterState
    → RouterState × Reply
unfolding process_user
after_get_user shown d now user msg none s = (s, reply "onboarding" unknown_account_message)
after_get_user shown d now user msg (some cfg) s = process_user shown d now user cfg msg s

-- Behind Resolve.
unfoldable pub after_resolve :
    (List ℕ → String) → Env → ℕ → Message → Option String → RouterState → RouterState × Reply
unfolding after_get_user
after_resolve shown d now msg none s = (s, reply "error" "Something went wrong. Please try again.")
after_resolve shown d now msg (some user) s =
    if str_eq user ""
    then (s, reply "onboarding" onboarding_message)
    else after_get_user shown d now user msg (get_user d.users user) s

unfoldable pub process : (List ℕ → String) → Env → ℕ → Message → RouterState → RouterState × Reply
unfolding resolve after_resolve
process shown d now msg s = after_resolve shown d now msg (resolve d msg s) s
