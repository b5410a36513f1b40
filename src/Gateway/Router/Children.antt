-- ===== src/Gateway/Router/Children.antt =====
-- The registration links children only.
use famclaw.Prelude.{
  ℕ, ◌+◌, ◌≡◌, refl, sym, inl, inr, Bool, true, false, not, String, Option, none, some, List, [],
  ◌∷◌, length, ltb, if◌then◌else◌, Bool-cases, All,
}
use mathlib.Core.Path.{subst}
use famclaw.Prelude.Text.{str_eq}
use famclaw.Store.Accounts.{GatewayAccount, link_account, is_account, lower_name}
use famclaw.Gateway.Router.State.{
  UserConfig, get_user, Message, Reply, Env, PendingRegistration, RouterState,
}
use famclaw.Gateway.Router.Process.{resolve, process}
use famclaw.Gateway.Router.Registration.{
  delete_pending, clean_expired_pending, Identity, without_parents, find_by_name, five_minutes,
  find_pending, pending_key, unlinked_users, link_user, after_choice, handle_registration_reply,
  ask, after_match, register, after_pending, handle_unknown_account, dispatch_known, after_identity,
  handle,
}
use famclaw.Gateway.Router.Untouched.{links, links-process}
use famclaw.Gateway.Router.Lookups.{
  IsConfiguredChild, All-delete_pending, All-clean_expired_pending, find_pending-All,
  offered-IsConfiguredChild, find_by_name-All, chosen_user-All,
}

-- A list that was shown holds configured children only.
abbrev pub Shown : List UserConfig → PendingRegistration → Type 0
Shown users r = All (IsConfiguredChild users) r.unlinked

-- Whom an account may be linked to: `P` holds of each account of a configured child.
module _ (d : Env) (P : GatewayAccount → Type 0)
    (children : (u : UserConfig) (gateway : List ℕ) (external_id : String)
      → IsConfiguredChild d.users u
      → P (record { user_name = u.name; gateway = gateway; external_id = external_id })) where
  -- All accounts satisfy `P`, and every list that was shown holds configured children only.
  pub record Linked (s : RouterState) : Type 0 where
    pub accounts : All P s.accounts
    pub shown : All (Shown d.users) s.pending_regs

  All-link_account :
      (u : UserConfig) (gateway : List ℕ) (external_id : String) (rows : List GatewayAccount)
      → IsConfiguredChild d.users u
      → All P rows
      → All P (link_account u.name gateway external_id rows)
  unfolding link_account
  All-link_account u gateway external_id [] c h = (children u gateway external_id c, tt)
  All-link_account u gateway external_id (a ∷ rows) c h =
      elim (Bool-cases (is_account gateway external_id a)) [
        | inl e ↦ rw e (children u a.gateway a.external_id c, h.1)
        | inr n ↦ rw n (h.0, All-link_account u gateway external_id rows c h.1)
      ]

  link_user-Linked :
      (i : Identity) (u : UserConfig) (msg : Message) (s : RouterState)
      → IsConfiguredChild d.users u
      → Linked s
      → Linked (link_user i u msg s)
  unfolding link_user
  link_user-Linked i u msg s c h = record {
    accounts = All-link_account u (lower_name msg.gateway) msg.external_id s.accounts c h.accounts;
    shown = h.shown;
  }

  Linked-if :
      (b : Bool) (p q : RouterState × Reply)
      → Linked p.0
      → Linked q.0
      → Linked (if b then p else q).0
  Linked-if true p q h k = h
  Linked-if false p q h k = k

  chosen-Linked :
      (i : Identity) (u : UserConfig) (msg : Message) (s : RouterState)
      → IsConfiguredChild d.users u
      → Linked s
      → Linked (
          link_user i u msg
            (record s { pending_regs = delete_pending (pending_key msg) s.pending_regs }))
  chosen-Linked i u msg s c h =
      link_user-Linked i u msg
        (record s { pending_regs = delete_pending (pending_key msg) s.pending_regs }) c
        (record {
          accounts = h.accounts;
          shown = All-delete_pending (Shown d.users) (pending_key msg) s.pending_regs h.shown;
        })

  after_choice-Linked :
      (text : List ℕ → String) (i : Identity) (msg : Message) (n : ℕ) (o : Option UserConfig)
      (s : RouterState)
      → ((u : UserConfig) → o ≡ some u → IsConfiguredChild d.users u)
      → Linked s
      → Linked (after_choice text i msg n o s).0
  unfolding after_choice
  after_choice-Linked text i msg n none s c h = h
  after_choice-Linked text i msg n (some u) s c h =
      Linked-if (not i.linked) _ _ h (chosen-Linked i u msg s (c u refl) h)

  ask-Linked :
      (text : List ℕ → String) (now : ℕ) (msg : Message) (users : List UserConfig) (s : RouterState)
      → All (IsConfiguredChild d.users) users
      → Linked s
      → Linked (ask text now msg users s).0
  unfolding ask
  ask-Linked text now msg [] s c h = h
  ask-Linked text now msg (u ∷ users) s c h = record {
    accounts = h.accounts;
    shown = (c, All-delete_pending (Shown d.users) (pending_key msg) s.pending_regs h.shown);
  }

  after_match-Linked :
      (text : List ℕ → String) (i : Identity) (now : ℕ) (msg : Message) (users : List UserConfig)
      (o : Option UserConfig) (s : RouterState)
      → All (IsConfiguredChild d.users) users
      → ((u : UserConfig) → o ≡ some u → IsConfiguredChild d.users u)
      → Linked s
      → Linked (after_match text i now msg users o s).0
  unfolding after_match
  after_match-Linked text i now msg users none s a c h = ask-Linked text now msg users s a h
  after_match-Linked text i now msg users (some u) s a c h =
      Linked-if (not i.linked) _ _ h (link_user-Linked i u msg s (c u refl) h)

  named-IsChild :
      (b : Bool) (name : String) (users : List UserConfig) (u : UserConfig)
      → All (IsConfiguredChild d.users) users
      → (if b then none else find_by_name name users) ≡ some u
      → IsConfiguredChild d.users u
  named-IsChild true name users u a e = cc
  named-IsChild false name users u a e =
      find_by_name-All (IsConfiguredChild d.users) name users u a e

  register-Linked :
      (text : List ℕ → String) (i : Identity) (now : ℕ) (msg : Message) (s : RouterState)
      → Linked s
      → Linked (register text i now d.users msg s).0
  unfolding register
  register-Linked text i now msg s h =
      let unlinked =
        without_parents (unlinked_users i (lower_name msg.gateway) s.accounts d.users) in
      let a = offered-IsConfiguredChild i (lower_name msg.gateway) s.accounts d.users in
      after_match-Linked text i now msg unlinked _ s a
        (λ u. named-IsChild (str_eq msg.display_name "") msg.display_name unlinked u a) h

  after_pending-Linked :
      (text : List ℕ → String) (i : Identity) (now : ℕ) (msg : Message)
      (o : Option PendingRegistration) (s : RouterState)
      → ((p : PendingRegistration) → o ≡ some p → Shown d.users p)
      → Linked s
      → Linked (after_pending text i now d.users msg o s).0
  unfolding after_pending handle_registration_reply
  after_pending-Linked text i now msg none s c h = register-Linked text i now msg s h
  after_pending-Linked text i now msg (some p) s c h =
      Linked-if (ltb now (p.asked_at + five_minutes)) _ _
        (after_choice-Linked text i msg (length p.unlinked) _ s
          (λ u. chosen_user-All (IsConfiguredChild d.users) _ p.unlinked u (c p refl)) h)
        (register-Linked text i now msg s h)

  handle_unknown_account-Linked :
      (text : List ℕ → String) (i : Identity) (now : ℕ) (msg : Message) (s : RouterState)
      → Linked s
      → Linked (handle_unknown_account text i now d.users msg s).0
  unfolding handle_unknown_account
  handle_unknown_account-Linked text i now msg s h =
      let regs = clean_expired_pending now s.pending_regs in
      let k = All-clean_expired_pending (Shown d.users) now s.pending_regs h.shown in
      after_pending-Linked text i now msg (find_pending (pending_key msg) regs) _
        (λ p. find_pending-All (Shown d.users) (pending_key msg) regs p k)
        (record { accounts = h.accounts; shown = k })

  same_links : (s t : RouterState) → links t ≡ links s → Linked s → Linked t
  same_links s t e h = record {
    accounts = subst (λ l. All P l.0) (sym e) h.accounts;
    shown = subst (λ l. All (Shown d.users) l.1) (sym e) h.shown;
  }

  dispatch_known-Linked :
      (text : List ℕ → String) (now : ℕ) (msg : Message) (o : Option UserConfig) (s : RouterState)
      → Linked s
      → Linked (dispatch_known text d now msg o s).0
  unfolding dispatch_known
  dispatch_known-Linked text now msg none s h = h
  dispatch_known-Linked text now msg (some cfg) s h =
      same_links s (process text d now msg s).0 (links-process d text now msg s) h

  after_identity-Linked :
      (text : List ℕ → String) (i : Identity) (now : ℕ) (msg : Message) (o : Option String)
      (s : RouterState)
      → Linked s
      → Linked (after_identity text d i now msg o s).0
  unfolding after_identity
  after_identity-Linked text i now msg none s h = h
  after_identity-Linked text i now msg (some user) s h =
      Linked-if (str_eq user "") _ _ (handle_unknown_account-Linked text i now msg s h)
        (dispatch_known-Linked text now msg (get_user d.users user) s h)

  -- Whatever holds of every account that is linked now, and of every account of a configured user who
  -- is no parent, holds of every account after any message: neither a name that matches nor a number of
  -- the list links an account to anybody else, whatever the message says, provided that the lists that
  -- were shown before hold configured children only; and so do the lists that are shown then.
  pub handle-Linked :
      (text : List ℕ → String) (i : Identity) (now : ℕ) (msg : Message) (s : RouterState)
      → Linked s
      → Linked (handle text d i now msg s).0
  unfolding handle
  handle-Linked text i now msg s h = after_identity-Linked text i now msg (resolve d msg s) s h
