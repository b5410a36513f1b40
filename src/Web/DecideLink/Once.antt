-- ===== src/Web/DecideLink/Once.antt =====
-- A decision that a handler has confirmed stays.
use famclaw.Prelude.{
  ℕ, ◌≡◌, refl, sym, ap, ◌∙◌, inl, inr, Bool, true, false, String, Option, none, some, List, [],
  ◌∷◌, ◌==◌, Bool-cases,
}
use famclaw.Prelude.Text.{str_eq}
use famclaw.Store.Approvals as A
use famclaw.Store.Approvals.{
  Approval, pending, find, Decision, decided_row, silent, is_open, update, rows_affected, decide,
  decide_approval, DecideError, already_decided,
}
use famclaw.Store.Approvals.Final.{decided_in, find-update, find-run_closed}
use famclaw.Store.Tokens.{mark_token_used}
use famclaw.Web.DecideLink.{
  Tables, decided, status_of, answer_of, decide_by, DecideBody, after_mark, after_verify,
  handle_decide, DecideLink, Database, handle_decide_link, Call, decides_on_page, follows_link,
  other_call, call, run,
}

-- The row of an id is there and no longer pending.
abbrev pub IsClosed : String → List Approval → Type 0
IsClosed id rows = (a : Approval) × (find id rows ≡ some a) × (str_eq a.status pending ≡ false)

status_closed : (action : String) → str_eq (status_of action) pending ≡ false
status_closed action = elim (Bool-cases (str_eq action "deny")) [
  | inl d ↦ rw d refl
  | inr n ↦ rw n refl
]

affected_found :
    (d : Decision) (rows : List Approval)
    → (rows_affected d rows == 0) ≡ false
    → (a : Approval) × (find d.id rows ≡ some a)
unfolding rows_affected find
affected_found d [] h = cc
affected_found d (a ∷ rows) h = elim (Bool-cases (str_eq a.id d.id)) [
  | inl s ↦ (a, rw s refl)
  | inr n ↦ let (b, e) = affected_found d rows (rw n at h) in (b, rw n e)
]

find_id :
    (k : String) (rows : List Approval) (a : Approval) → find k rows ≡ some a → str_eq a.id k ≡ true
unfolding find
find_id k [] a h = cc
find_id k (b ∷ rows) a h = elim (Bool-cases (str_eq b.id k)) [
  | inl s ↦ ap (λ o. elim o [ some c ↦ str_eq c.id k | none ↦ true ]) (sym (rw s at h)) ∙ s
  | inr n ↦ find_id k rows a (rw n at h)
]

closed_row :
    (now : ℕ) (d : Decision) (a : Approval)
    → str_eq a.id d.id ≡ true
    → str_eq d.status pending ≡ false
    → (b : Approval) × (decided_in now d (some a) ≡ some b) × (str_eq b.status pending ≡ false)
closed_row now d a i c = elim (Bool-cases (str_eq a.status pending)) [
  | inl p ↦ (decided_row now d a, rw (i, p) refl, c)
  | inr n ↦ (a, rw (i, n) refl, n)
]

update-IsClosed :
    (now : ℕ) (d : Decision) (rows : List Approval)
    → str_eq d.status pending ≡ false
    → (rows_affected d rows == 0) ≡ false
    → IsClosed d.id (update now d rows)
update-IsClosed now d rows c n =
    let (a, found) = affected_found d rows n in
    let (b, e, closed) = closed_row now d a (find_id d.id rows a found) c in
    (b, find-update d.id now d rows ∙ ap (λ o. decided_in now d o) found ∙ e, closed)

-- The handler's answer to a confirmed decision.
confirmed :
    (executed : Bool) (now : ℕ) (id action decided_by s : String) (rows : List Approval)
    → answer_of
        (status_of action)
        (decide_approval executed now id (status_of action) decided_by rows).1
      ≡ decided s
    → IsClosed id (decide_approval executed now id (status_of action) decided_by rows).0
unfolding decide_approval decide
confirmed false now id action decided_by s rows h = cc
confirmed true now id action decided_by s rows h =
    let d = silent id (status_of action) decided_by in
    elim (Bool-cases (rows_affected d rows == 0)) [
      | inl z ↦ let h' = rw z at h in cc
      | inr n ↦ update-IsClosed now d rows (status_closed action) n
    ]

decide_by-IsClosed :
    (executed : Bool) (now : ℕ) (id action by s : String) (t : Tables)
    → (decide_by executed now id action by t).1 ≡ decided s
    → IsClosed id (decide_by executed now id action by t).0.approvals
unfolding decide_by
decide_by-IsClosed executed now id action by s t h =
    confirmed executed now id action by s t.approvals h

module _ (id : String) (a : Approval) (closed : str_eq a.status pending ≡ false) where
  -- The tables hold this row under the id.
  abbrev Holds : Tables → Type 0
  Holds t = find id t.approvals ≡ some a

  step-Holds :
      (e : A.Event) (rows : List Approval)
      → find id rows ≡ some a
      → find id (A.step e rows) ≡ some a
  unfolding A.run
  step-Holds e rows h = find-run_closed id (e ∷ []) rows a h closed

  decide_by-Holds :
      (executed : Bool) (now : ℕ) (k action by : String) (t : Tables)
      → Holds t
      → Holds (decide_by executed now k action by t).0
  unfolding decide_by A.step
  decide_by-Holds executed now k action by t h =
      step-Holds (A.decides executed now k (status_of action) by) t.approvals h

  after_mark-Holds :
      (d : Database) (now : ℕ) (b : DecideBody) (o : Option Bool) (t : Tables)
      → Holds t
      → Holds (after_mark d now b o t).0
  unfolding after_mark
  after_mark-Holds d now b none t h = h
  after_mark-Holds d now b (some false) t h = h
  after_mark-Holds d now b (some true) t h =
      decide_by-Holds d.executed now b.id b.action "parent-link" t h

  after_verify-Holds :
      (d : Database) (now : ℕ) (hash : String) (o : Option DecideBody) (t : Tables)
      → Holds t
      → Holds (after_verify d now hash o t).0
  unfolding after_verify
  after_verify-Holds d now hash none t h = h
  after_verify-Holds d now hash (some b) t h =
      let (tokens, is_new) = mark_token_used d.inserted d.counted now hash t.used_tokens in
      after_mark-Holds d now b is_new (record t { used_tokens = tokens }) h

  link-Holds :
      (d : Database) (now : ℕ) (link : DecideLink) (t : Tables)
      → Holds t
      → Holds (handle_decide_link d now link t).0
  unfolding handle_decide_link
  link-Holds d now link t h = elim (Bool-cases (str_eq link.token "")) [
    | inl e ↦ rw e h
    | inr f ↦ rw f (after_verify-Holds d now link.token_hash link.verified t h)
  ]

  call-Holds : (c : Call) (t : Tables) → Holds t → Holds (call c t)
  unfolding call handle_decide
  call-Holds (decides_on_page false executed now body) t h = h
  call-Holds (decides_on_page true executed now none) t h = h
  call-Holds (decides_on_page true executed now (some b)) t h =
      decide_by-Holds executed now b.id b.action "parent" t h
  call-Holds (follows_link d now link) t h = link-Holds d now link t h
  call-Holds (other_call e) t h = step-Holds e t.approvals h

  run-Holds : (calls : List Call) (t : Tables) → Holds t → Holds (run calls t)
  unfolding run
  run-Holds [] t h = h
  run-Holds (c ∷ calls) t h = run-Holds calls (call c t) (call-Holds c t h)

after_mark-IsClosed :
    (d : Database) (now : ℕ) (b : DecideBody) (o : Option Bool) (t : Tables) (s : String)
    → (after_mark d now b o t).1 ≡ decided s
    → IsClosed b.id (after_mark d now b o t).0.approvals
unfolding after_mark
after_mark-IsClosed d now b none t s h = cc
after_mark-IsClosed d now b (some false) t s h = cc
after_mark-IsClosed d now b (some true) t s h =
    decide_by-IsClosed d.executed now b.id b.action "parent-link" s t h

link-IsClosed :
    (d : Database) (now : ℕ) (link : DecideLink) (b : DecideBody) (t : Tables) (s : String)
    → link.verified ≡ some b
    → (handle_decide_link d now link t).1 ≡ decided s
    → IsClosed b.id (handle_decide_link d now link t).0.approvals
unfolding handle_decide_link after_verify
link-IsClosed d now link b t s v h = elim (Bool-cases (str_eq link.token "")) [
  | inl e ↦ let h' = rw e at h in cc
  | inr f ↦
      let (tokens, is_new) =
        mark_token_used d.inserted d.counted now link.token_hash t.used_tokens in
      rw (f, v)
        (after_mark-IsClosed d now b is_new (record t { used_tokens = tokens }) s (rw (f, v) at h))
]

-- Once a link has been followed and its decision confirmed, the approval that it names keeps its row,
-- whatever happens next: the link is followed again, or the one for the opposite decision, the page
-- decides, the request is repeated, or the database fails.
pub link_decides_once :
    (d : Database) (now : ℕ) (link : DecideLink) (b : DecideBody) (s : String) (t : Tables)
    (calls : List Call)
    → link.verified ≡ some b
    → (handle_decide_link d now link t).1 ≡ decided s
    → let t' = (handle_decide_link d now link t).0 in
      find b.id (run calls t').approvals ≡ find b.id t'.approvals
link_decides_once d now link b s t calls v h =
    let (a, found, closed) = link-IsClosed d now link b t s v h in
    run-Holds b.id a closed calls (handle_decide_link d now link t).0 found ∙ sym found
