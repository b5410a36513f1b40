-- ===== src/Quarantine/Persistence.antt =====
-- The map and the table of quarantine.go, over calls that fail and restarts.
use famclaw.Prelude.{
  ◌≡◌, refl, sym, ap, ◌∙◌, true, false, String, Option, none, some, List, [], ◌∷◌, if◌then◌else◌,
  arith, All,
}
use famclaw.Prelude.Text.{str_eq}
use famclaw.Quarantine.{
  QuarantineEntry, Quarantine, find, load, block, clear, Event, blocks, clears, restarts, step, run,
  is_blocked,
}
use famclaw.Quarantine.Mapping.{
  find-put, find-remove, find-load_rows, Keyed, Keyed-put, Keyed-remove, or_else,
}

-- The map of the process is the table.
pub record Agrees (q : Quarantine) : Type 0 where
  pub keyed : Keyed q.table
  pub same : (target : String) → find target q.blocked ≡ find target q.table

or_else-none : (o : Option QuarantineEntry) → or_else o none ≡ o
or_else-none none = refl
or_else-none (some e) = refl

pub step-Agrees : (e : Event) (q : Quarantine) → Agrees q → Agrees (step e q)
unfolding step block clear load find
step-Agrees (blocks false e) q a = a
step-Agrees (blocks true e) q a = record {
  keyed = Keyed-put e q.table a.keyed;
  same = λ t.
      find-put t e q.blocked
      ∙ ap (λ o. if str_eq e.scan_target t then some e else o) (a.same t)
      ∙ sym (find-put t e q.table);
}
step-Agrees (clears false target) q a = a
step-Agrees (clears true target) q a = record {
  keyed = Keyed-remove target q.table a.keyed;
  same = λ t.
      find-remove t target q.blocked
      ∙ ap (λ o. if str_eq target t then none else o) (a.same t)
      ∙ sym (find-remove t target q.table);
}
step-Agrees restarts q a = record {
  keyed = a.keyed;
  same = λ t. find-load_rows t [] q.table a.keyed ∙ or_else-none (find t q.table);
}

pub block-Agrees : (e : QuarantineEntry) (q : Quarantine) → Agrees q → Agrees (block true e q).0
unfolding step
block-Agrees e q a = step-Agrees (blocks true e) q a

-- Whatever calls fail, and over any restarts, what the process blocks is what the table holds.
pub run-Agrees : (events : List Event) (q : Quarantine) → Agrees q → Agrees (run events q)
unfolding run
run-Agrees [] q a = a
run-Agrees (e ∷ events) q a = run-Agrees events (step e q) (step-Agrees e q a)

-- No clearing of the target.
abbrev pub Leaves : String → Event → Type 0
Leaves target (blocks ok e) = Unit
Leaves target (clears ok t) = str_eq t target ≡ false
Leaves target restarts = Unit

is_blocked-step :
    (e : Event) (target : String) (q : Quarantine)
    → Agrees q
    → Leaves target e
    → is_blocked target q ≡ true
    → is_blocked target (step e q) ≡ true
unfolding is_blocked step block clear load find
is_blocked-step (blocks false e) target q a l h = h
is_blocked-step (blocks true e) target q a l h = let k = find-put target e q.blocked in ground arith
is_blocked-step (clears false t) target q a l h = h
is_blocked-step (clears true t) target q a l h =
    let k = find-remove target t q.blocked in ground arith
is_blocked-step restarts target q a l h =
    let k = find-load_rows target [] q.table a.keyed ∙ or_else-none (find target q.table) in
    let s = a.same target in ground arith

pub is_blocked-run :
    (events : List Event) (target : String) (q : Quarantine)
    → Agrees q
    → All (Leaves target) events
    → is_blocked target q ≡ true
    → is_blocked target (run events q) ≡ true
unfolding run
is_blocked-run [] target q a l h = h
is_blocked-run (e ∷ events) target q a l h =
    is_blocked-run events target (step e q) (step-Agrees e q a) l.1
      (is_blocked-step e target q a l.0 h)
