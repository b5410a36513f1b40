-- ===== src/Web/DecideLink/Replay.antt =====
-- The check of a link against its replay, in MarkTokenUsed and its caller.
use famclaw.Prelude.{
  ℕ, suc, ◌≤◌, ◌≡◌, ◌≢◌, refl, inl, inr, Bool, true, false, String, Option, none, some, List, [],
  ◌∷◌, ◌++◌, Bool-cases, arith,
}
use famclaw.Prelude.Text.{str_eq, eq_refl}
use famclaw.Store.Approvals.{DecideError, decide_approval}
use famclaw.Store.Tokens.{UsedToken, count_token, insert_token, mark_token_used}
use famclaw.Web.DecideLink.{
  Tables, already_used, decide_by, DecideBody, DecideLink, Database, answer_of, after_mark,
  after_verify, handle_decide_link, status_of,
}

count_token-append :
    (hash : String) (now : ℕ) (rows : List UsedToken)
    → count_token hash (rows ++ record { token_hash = hash; used_at = now } ∷ [])
      ≡ suc (count_token hash rows)
unfolding count_token
count_token-append hash now [] = rw (eq_refl hash) refl
count_token-append hash now (t ∷ rows) = ground (arith, count_token-append hash now rows)

count_token-insert_token :
    (hash : String) (now : ℕ) (rows : List UsedToken)
    → count_token hash rows ≤ 1
    → count_token hash (insert_token now hash rows) ≡ 1
unfolding insert_token
count_token-insert_token hash now rows h = ground (arith, count_token-append hash now rows)

mark_token_used-new :
    (hash : String) (now : ℕ) (rows : List UsedToken)
    → count_token hash rows ≤ 1
    → (mark_token_used true true now hash rows).1 ≡ some true
unfolding mark_token_used
mark_token_used-new hash now rows h = rw (count_token-insert_token hash now rows h) refl

answer_of-never : (s : String) (o : Option DecideError) → answer_of s o ≢ already_used
answer_of-never s none h = cc
answer_of-never s (some e) h = cc

decide_by-never :
    (executed : Bool) (now : ℕ) (id action by : String) (t : Tables)
    → (decide_by executed now id action by t).1 ≢ already_used
unfolding decide_by
decide_by-never executed now id action by t =
    answer_of-never (status_of action)
      (decide_approval executed now id (status_of action) by t.approvals).1

marked-never :
    (d : Database) (now : ℕ) (b : DecideBody) (o : Option Bool) (t : Tables)
    → o ≢ some false
    → (after_mark d now b o t).1 ≢ already_used
unfolding after_mark
marked-never d now b none t n h = cc
marked-never d now b (some false) t n h = n refl
marked-never d now b (some true) t n h =
    decide_by-never d.executed now b.id b.action "parent-link" t h

never_old :
    (inserted : Bool) (now : ℕ) (hash : String) (rows : List UsedToken)
    → count_token hash rows ≤ 1
    → (mark_token_used inserted true now hash rows).1 ≢ some false
unfolding mark_token_used
never_old false now hash rows c h = cc
never_old true now hash rows c h = let e = mark_token_used-new hash now rows c in cc

after_verify-never :
    (d : Database) (now : ℕ) (hash : String) (o : Option DecideBody) (t : Tables)
    → d.counted ≡ true
    → count_token hash t.used_tokens ≤ 1
    → (after_verify d now hash o t).1 ≢ already_used
unfolding after_verify
after_verify-never d now hash none t k c h = cc
after_verify-never d now hash (some b) t k c h =
    let (tokens, is_new) = mark_token_used d.inserted d.counted now hash t.used_tokens in
    marked-never d now b is_new (record t { used_tokens = tokens })
      (rw k (never_old d.inserted now hash t.used_tokens c)) h

-- No link is ever refused as used already, however often it was followed, as long as the database can
-- count the rows of its token, of which there is one at most, by the table's key.
pub link_never_used :
    (d : Database) (now : ℕ) (link : DecideLink) (t : Tables)
    → d.counted ≡ true
    → count_token link.token_hash t.used_tokens ≤ 1
    → (handle_decide_link d now link t).1 ≢ already_used
unfolding handle_decide_link
link_never_used d now link t k c h = elim (Bool-cases (str_eq link.token "")) [
  | inl e ↦ let h' = rw e at h in cc
  | inr f ↦ after_verify-never d now link.token_hash link.verified t k c (rw f at h)
]
