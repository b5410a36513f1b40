-- ===== src/Quarantine/Filter.antt =====
-- The filter of stage_quarantine_filter.go behind the quarantine.
use famclaw.Prelude.{
  ◌≡◌, ◌≢◌, refl, sym, ap, ◌∙◌, inl, inr, true, not, ◌||◌, String, List, [], ◌∷◌, Bool-cases, arith,
  All,
}
use mathlib.Core.List.{Sublistᴰ}
use mathlib.Core.List.Sublistᴰ as Sub
use famclaw.Prelude.Text.{str_eq, eq_iff, eq_refl}
use famclaw.Quarantine.{
  QuarantineEntry, Quarantine, block, Event, run, is_blocked, Tool, filter_tools,
}
use famclaw.Quarantine.Mapping.{find-put}
use famclaw.Quarantine.Persistence.{Agrees, Leaves, is_blocked-run, block-Agrees}

-- Not this scan target.
abbrev pub Other : String → Tool → Type 0
Other target t = ¬ (t.scan_target ≡ target)

kept-Other :
    (q : Quarantine) (target : String) (t : Tool)
    → target ≢ ""
    → is_blocked target q ≡ true
    → (str_eq t.scan_target "" || not (is_blocked t.scan_target q)) ≡ true
    → Other target t
kept-Other q target t n h k e = elim (Bool-cases (str_eq t.scan_target "")) [
  | inl empty ↦ n (sym e ∙ (eq_iff t.scan_target "").0 empty)
  | inr full ↦ let b = ap (λ k. is_blocked k q) e in ground arith
]

filter_tools-Other :
    (q : Quarantine) (target : String) (tools : List Tool)
    → target ≢ ""
    → is_blocked target q ≡ true
    → All (Other target) (filter_tools q tools)
unfolding filter_tools
filter_tools-Other q target [] n h = tt
filter_tools-Other q target (t ∷ tools) n h =
    elim (Bool-cases (str_eq t.scan_target "" || not (is_blocked t.scan_target q))) [
      | inl k ↦ rw k (kept-Other q target t n h k, filter_tools-Other q target tools n h)
      | inr d ↦ rw d (filter_tools-Other q target tools n h)
    ]

pub filter_tools-Sublistᴰ :
    (q : Quarantine) (tools : List Tool) → Sublistᴰ (filter_tools q tools) tools
unfolding filter_tools
filter_tools-Sublistᴰ q [] = Sub.slnil
filter_tools-Sublistᴰ q (t ∷ tools) =
    elim (Bool-cases (str_eq t.scan_target "" || not (is_blocked t.scan_target q))) [
      | inl k ↦ rw k (Sub.cons-cons refl (filter_tools-Sublistᴰ q tools))
      | inr d ↦ rw d (Sub.cons (filter_tools-Sublistᴰ q tools))
    ]

is_blocked-block :
    (e : QuarantineEntry) (q : Quarantine) → is_blocked e.scan_target (block true e q).0 ≡ true
unfolding is_blocked block
is_blocked-block e q =
    let k = find-put e.scan_target e q.blocked in let s = eq_refl e.scan_target in ground arith

-- Once a tool's scan target, which is not empty, has been blocked, and as long as it is not cleared,
-- no turn offers a tool with this target, whatever is blocked and cleared besides, whichever of these
-- calls fail, and over restarts whose load succeeds; what is offered stands in the given order.
pub filter_tools-run :
    (e : QuarantineEntry) (events : List Event) (q : Quarantine) (tools : List Tool)
    → Agrees q
    → e.scan_target ≢ ""
    → All (Leaves e.scan_target) events
    → let kept = filter_tools (run events (block true e q).0) tools in
      All (Other e.scan_target) kept × Sublistᴰ kept tools
filter_tools-run e events q tools a n l =
    let t = (block true e q).0 in
    let b = is_blocked-run events e.scan_target t (block-Agrees e q a) l (is_blocked-block e q) in
    (
      filter_tools-Other (run events t) e.scan_target tools n b,
      filter_tools-Sublistᴰ (run events t) tools,
    )
