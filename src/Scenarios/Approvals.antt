-- ===== src/Scenarios/Approvals.antt =====
-- Requests for approval, decided on the page and by links, and overrides of roles.
use famclaw.Prelude.{◌≡◌, ◌≢◌, refl, true, String, Option, none, some, List, [], ◌∷◌, arith}
use famclaw.Prelude.Text.{codes}
use famclaw.Store.Approvals.{
  Approval, Event, requests, decides, decides_with_note, find, count, upsert_approval, decide,
  decide_approval, decide_approval_with_note, update, rows_affected, step, run, Shown, shown_rows,
  all_approvals_for_opa,
}
use famclaw.Notify.Decimal.{nonneg}
use famclaw.Store.Approvals.Final.{spec_run, find-run_closed}
use famclaw.Store.Approvals.Unique.{Holds, run-Holds}
use famclaw.Store.Approvals.AsMap.{map_run}
use famclaw.Store.Approvals.Policy.{shown_of, shown_of-run}
use famclaw.Store.Roles as R
use famclaw.Store.Roles.{RoleAge}
use famclaw.Store.Roles.Capped as Cap
use famclaw.Store.Roles.Capped.{Capped}
use famclaw.Store.Tokens.{count_token, mark_token_used, insert_token}
use famclaw.Web.DecideLink as W
use famclaw.Web.DecideLink.{
  Tables, decided, decide_failed, already_used, decide_by, DecideBody, DecideLink, Database,
  after_mark, after_verify, handle_decide_link, follows_link,
}
use famclaw.Web.DecideLink.Once.{link_decides_once}
use famclaw.Web.DecideLink.Replay.{link_never_used}
use famclaw.Notify.Token.{Sign, generate_token, verify_token, accepted}
use famclaw.Notify.Token.RoundTrip.{verify_token-generate_token}

abbrev question : Approval
question = record {
  id = "a1";
  user_name = "tim";
  user_display = "Tim";
  age_group = "age_8_12";
  category = "violence";
  query_text = "who won the war";
  status = "";
  created_at = 0;
  updated_at = 0;
  expires_at = 0;
  decided_by = "";
  decision_note = "";
}

-- Asked twice, denied, asked again and then approved.
abbrev history : List Event
history =
    requests true true 10 question
    ∷ requests true true 11 question
    ∷ decides true 20 "a1" "denied" "parent"
    ∷ requests true true 30 question
    ∷ decides_with_note true 40 "a1" "approved" "mia" "fine"
    ∷ []

abbrev denied : Approval
denied = record question {
  status = "denied";
  created_at = 10;
  updated_at = 20;
  expires_at = 86410;
  decided_by = "parent";
}

stays_denied : run history [] ≡ denied ∷ []
unfolding run step upsert_approval decide_approval decide_approval_with_note decide update count
    rows_affected
stays_denied = refl

run-Holds_example : Holds "a1" (run history []) (map_run "a1" history none)
run-Holds_example = run-Holds "a1" history [] none refl

denied_found : find "a1" (denied ∷ []) ≡ some denied
unfolding find
denied_found = refl

find-run_closed_example : find "a1" (run history (denied ∷ [])) ≡ some denied
find-run_closed_example = find-run_closed "a1" history (denied ∷ []) denied denied_found refl

abbrev shown : String → Option Shown
shown = shown_rows (λ a. true) (run history []) λ id. none

opa_read : all_approvals_for_opa true (λ a. true) (run history []) ≡ some shown
unfolding all_approvals_for_opa
opa_read = refl

shown_of-run_example : shown "a1" ≡ shown_of (λ a. true) (spec_run "a1" history none) none
shown_of-run_example = shown_of-run (λ a. true) history shown "a1" opa_read

abbrev working : Database
working = record { inserted = true; counted = true; executed = true }

abbrev deny_link : DecideLink
deny_link = record {
  token = "dDE=";
  verified = some (record { id = "a1"; action = "deny" });
  token_hash = "77";
}

abbrev start : Tables
start = record { approvals = record question { status = "pending" } ∷ []; used_tokens = [] }

link_confirmed : (handle_decide_link working 50 deny_link start).1 ≡ decided "denied"
unfolding handle_decide_link after_verify after_mark decide_by decide_approval decide update
    rows_affected mark_token_used insert_token count_token
link_confirmed = refl

-- The second use passes the check of the tokens and is stopped by the approval's state.
second_use :
    (handle_decide_link working 60 deny_link (handle_decide_link working 50 deny_link start).0).1
    ≡ decide_failed
unfolding handle_decide_link after_verify after_mark decide_by decide_approval decide update
    rows_affected mark_token_used insert_token count_token
second_use = refl

link_decides_once_example :
    let t = (handle_decide_link working 50 deny_link start).0 in
    find "a1" (W.run (follows_link working 60 deny_link ∷ []) t).approvals ≡ find "a1" t.approvals
link_decides_once_example =
    link_decides_once working 50 deny_link (record { id = "a1"; action = "deny" }) "denied" start
      (follows_link working 60 deny_link ∷ []) refl link_confirmed

no_tokens : count_token "77" [] ≡ 0
unfolding count_token
no_tokens = refl

link_never_used_example : (handle_decide_link working 50 deny_link start).1 ≢ already_used
link_never_used_example = link_never_used working 50 deny_link start refl (omega (arith, no_tokens))

abbrev overrides : List R.Event
overrides =
    R.sets true (record { user_name = "tim"; role = "parent"; age_group = ""; set_by = "tim" })
    ∷ R.deletes true "mia"
    ∷ []

abbrev tim : RoleAge
tim = record { role = "child"; age_group = "age_8_12" }

-- A signature for the example: the length of the payload would do as well.
abbrev sign : Sign
sign = λ secret payload. codes "ab12"

verify_token-generate_token_example :
    verify_token sign 1700000500
      (generate_token sign 1700000000 (codes "a1") (codes "deny") (codes "key"))
      (codes "key")
      (nonneg 24)
    ≡ accepted (codes "a1") (codes "deny")
verify_token-generate_token_example =
    verify_token-generate_token sign (codes "a1") (codes "deny") (codes "key") 1700000000 1700000500
      24 ((omega arith, refl), ((omega arith, refl), tt))
      ((omega arith, refl), ((omega arith, refl), ((omega arith, refl), ((omega arith, refl), tt))))
      (omega arith, (omega arith, (omega arith, (omega arith, tt)))) (omega arith) (omega arith)
      (omega arith)
