-- ===== src/Web/DecideLink.antt =====
-- The two handlers of internal/web/server.go that decide an approval: handleDecide, for the page, and
-- handleDecideLink, for the link that a parent was sent.
pub mod Once
pub mod Replay
use famclaw.Prelude.{
  ℕ, Bool, true, false, not, ◌||◌, String, Option, none, some, List, [], ◌∷◌, if◌then◌else◌,
}
use famclaw.Prelude.Text.{str_eq}
use famclaw.Store.Approvals as A
use famclaw.Store.Approvals.{Approval, DecideError, decide_approval}
use famclaw.Store.Tokens.{UsedToken, mark_token_used}

pub record Tables : Type 0 where
  pub approvals : List Approval
  pub used_tokens : List UsedToken

pub data Response : Type 0 where
  method_not_allowed bad_body missing_parameters bad_token : Response
  replay_check_failed already_used decide_failed : Response
  decided : String → Response

abbrev pub status_of : String → String
status_of action = if str_eq action "deny" then "denied" else "approved"

-- The answer to a decision.
abbrev pub answer_of : String → Option DecideError → Response
answer_of status none = decided status
answer_of status (some _) = decide_failed

unfoldable pub decide_by : Bool → ℕ → (id action decided_by : String) → Tables → Tables × Response
decide_by executed now id action decided_by t =
    let (rows, err) = decide_approval executed now id (status_of action) decided_by t.approvals in
    (record t { approvals = rows }, answer_of (status_of action) err)

-- What the body of a request holds.
pub record DecideBody : Type 0 where
  pub id : String
  pub action : String

unfoldable pub handle_decide :
    (is_post executed : Bool) → ℕ → Option DecideBody → Tables → Tables × Response
unfolding decide_by
handle_decide is_post executed now body t =
    if not is_post then (t, method_not_allowed) else elim body [
      | none ↦ (t, bad_body)
      | some b ↦ decide_by executed now b.id b.action "parent" t
    ]

-- A request of a link: its token, what VerifyToken answers (the approval and the action), and the
-- token's hash.
pub record DecideLink : Type 0 where
  pub token : String
  pub verified : Option DecideBody
  pub token_hash : String

-- Which calls of the database succeed.
pub record Database : Type 0 where
  pub inserted : Bool
  pub counted : Bool
  pub executed : Bool

-- Behind MarkTokenUsed.
unfoldable pub after_mark : Database → ℕ → DecideBody → Option Bool → Tables → Tables × Response
unfolding decide_by
after_mark d now b none t = (t, replay_check_failed)
after_mark d now b (some false) t = (t, already_used)
after_mark d now b (some true) t = decide_by d.executed now b.id b.action "parent-link" t

-- Behind VerifyToken.
unfoldable pub after_verify : Database → ℕ → String → Option DecideBody → Tables → Tables × Response
unfolding after_mark
after_verify d now hash none t = (t, bad_token)
after_verify d now hash (some b) t =
    let (tokens, is_new) = mark_token_used d.inserted d.counted now hash t.used_tokens in
    after_mark d now b is_new (record t { used_tokens = tokens })

unfoldable pub handle_decide_link : Database → ℕ → DecideLink → Tables → Tables × Response
unfolding after_verify
handle_decide_link d now link t =
    if str_eq link.token ""
    then (t, missing_parameters)
    else after_verify d now link.token_hash link.verified t

-- What happens to the two tables: the two handlers, and the other calls on the approvals.
pub data Call : Type 0 where
  decides_on_page : (is_post executed : Bool) → ℕ → Option DecideBody → Call
  follows_link : Database → ℕ → DecideLink → Call
  other_call : A.Event → Call

unfoldable pub call : Call → Tables → Tables
unfolding handle_decide handle_decide_link
call (decides_on_page is_post executed now body) t = (handle_decide is_post executed now body t).0
call (follows_link d now link) t = (handle_decide_link d now link t).0
call (other_call e) t = record t { approvals = A.step e t.approvals }

unfoldable pub run : List Call → Tables → Tables
run [] t = t
run (c ∷ calls) t = run calls (call c t)
