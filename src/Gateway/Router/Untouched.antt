-- ===== src/Gateway/Router/Untouched.antt =====
-- The pipeline of a known user leaves the accounts and the registrations as they are.
use famclaw.Prelude.{
  ℕ, ◌≡◌, refl, Bool, true, false, not, String, Option, none, some, List, arith, if◌then◌else◌,
}
use famclaw.Store.Approvals.{upsert_approval, all_approvals_for_opa}
use famclaw.Prelude.Text.{str_eq}
use famclaw.Store.Accounts.{GatewayAccount}
use famclaw.Gateway.Router.State.{
  UserConfig, get_user, Message, Reply, Decision, Env, PendingRegistration, RouterState,
}
use famclaw.Gateway.Router.Process.{
  adjusted_user, request_row, input_of, has_audio_attachment, filter_image_attachments,
  transcribe_attachments, conversation_of, resolve, save_both, notify_new, create_approval, serve,
  act, after_evaluate, gate, after_transcription, process_user, after_get_user, after_resolve,
  process,
}

-- What the registration works on.
abbrev pub Links : Type 0
Links = List GatewayAccount × List PendingRegistration

abbrev pub links : RouterState → Links
links s = (s.accounts, s.pending_regs)

links-if :
    (b : Bool) (p q : RouterState × Reply) (l : Links)
    → links p.0 ≡ l
    → links q.0 ≡ l
    → links (if b then p else q).0 ≡ l
links-if true p q l h k = h
links-if false p q l h k = k

module _ (d : Env) where
  links-notify_new :
      (u : UserConfig) (id : String) (o : Option Bool) (s : RouterState)
      → links (notify_new d u id o s).0 ≡ links s
  unfolding notify_new
  links-notify_new u id none s = refl
  links-notify_new u id (some b) s = ground arith

  links-create_approval :
      (now : ℕ) (u : UserConfig) (category text id : String) (s : RouterState)
      → links (create_approval d now u category text id s).0 ≡ links s
  unfolding create_approval
  links-create_approval now u category text id s =
      let (rows, is_new) =
        upsert_approval d.counted d.inserted now (request_row u category text id) s.approvals in
      links-notify_new u id is_new (record s { approvals = rows })

  links-serve :
      (shown : List ℕ → String) (u : UserConfig) (msg : Message) (conv : String) (s : RouterState)
      → links (serve shown d u msg conv s).0 ≡ links s
  unfolding serve
  links-serve shown u msg conv s = ground arith

  links-act :
      (shown : List ℕ → String) (now : ℕ) (user : String) (u : UserConfig) (msg : Message)
      (conv category id : String) (decision : Decision) (s : RouterState)
      → links (act shown d now user u msg conv category id decision s).0 ≡ links s
  unfolding act save_both
  links-act shown now user u msg conv category id decision s =
      ground
        (arith, links-create_approval now u category msg.text id s, links-serve shown u msg conv s)

  links-after_evaluate :
      (shown : List ℕ → String) (now : ℕ) (user : String) (u : UserConfig) (msg : Message)
      (conv : String) (o : Option Decision) (s : RouterState)
      → links (after_evaluate shown d now user u msg conv o s).0 ≡ links s
  unfolding after_evaluate
  links-after_evaluate shown now user u msg conv none s = refl
  links-after_evaluate shown now user u msg conv (some decision) s =
      links-act shown now user u msg conv (d.classify msg.text)
        (d.approval_id user (d.classify msg.text)) decision s

  links-gate :
      (shown : List ℕ → String) (now : ℕ) (user : String) (cfg : UserConfig) (msg : Message)
      (conv : String) (s : RouterState)
      → links (gate shown d now user cfg msg conv s).0 ≡ links s
  unfolding gate
  links-gate shown now user cfg msg conv s =
      let u = adjusted_user d user cfg s in
      let approvals = all_approvals_for_opa d.approvals_read d.scanned s.approvals in
      links-after_evaluate shown now user u msg conv
        (d.evaluate (input_of d user u msg.text approvals)) s

  links-after_transcription :
      (shown : List ℕ → String) (now : ℕ) (user : String) (cfg : UserConfig) (msg : Message)
      (conv : String) (o : Option String) (s : RouterState)
      → links (after_transcription shown d now user cfg msg conv o s).0 ≡ links s
  unfolding after_transcription save_both
  links-after_transcription shown now user cfg msg conv none s = refl
  links-after_transcription shown now user cfg msg conv (some t) s =
      let m = record msg { text = t; attachments = filter_image_attachments msg.attachments } in
      ground
        (arith, links-gate shown now user cfg msg conv s, links-gate shown now user cfg m conv s)

  links-process_user :
      (shown : List ℕ → String) (now : ℕ) (user : String) (cfg : UserConfig) (msg : Message)
      (s : RouterState)
      → links (process_user shown d now user cfg msg s).0 ≡ links s
  unfolding process_user
  links-process_user shown now user cfg msg s =
      let conv = conversation_of d now user in
      links-if (not (has_audio_attachment msg.attachments)) _ _ (links s)
        (links-gate shown now user cfg msg conv s)
        (links-after_transcription shown now user cfg msg conv
          (transcribe_attachments d msg.attachments msg.text) s)

  links-after_get_user :
      (shown : List ℕ → String) (now : ℕ) (user : String) (msg : Message) (o : Option UserConfig)
      (s : RouterState)
      → links (after_get_user shown d now user msg o s).0 ≡ links s
  unfolding after_get_user
  links-after_get_user shown now user msg none s = refl
  links-after_get_user shown now user msg (some cfg) s = links-process_user shown now user cfg msg s

  links-after_resolve :
      (shown : List ℕ → String) (now : ℕ) (msg : Message) (o : Option String) (s : RouterState)
      → links (after_resolve shown d now msg o s).0 ≡ links s
  unfolding after_resolve
  links-after_resolve shown now msg none s = refl
  links-after_resolve shown now msg (some user) s =
      links-if (str_eq user "") _ _ (links s) refl
        (links-after_get_user shown now user msg (get_user d.users user) s)

  pub links-process :
      (shown : List ℕ → String) (now : ℕ) (msg : Message) (s : RouterState)
      → links (process shown d now msg s).0 ≡ links s
  unfolding process
  links-process shown now msg s = links-after_resolve shown now msg (resolve d msg s) s
