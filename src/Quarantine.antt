-- ===== src/Quarantine.antt =====
-- The quarantine of scanned tools (internal/skillbridge/quarantine.go), its table in
-- internal/store/db.go, and the filter of a turn (internal/agentcore/stage_quarantine_filter.go).
pub mod Mapping
pub mod Persistence
pub mod Filter
use famclaw.Prelude.{
  ℕ, Bool, true, false, not, ◌||◌, String, Option, none, some, List, [], ◌∷◌, if◌then◌else◌,
}
use famclaw.Prelude.Text.{str_eq}

pub record QuarantineEntry : Type 0 where
  pub scan_target : String
  pub tool_name : String
  pub verdict : String
  pub reasoning : String
  pub key_finding : String
  pub blocked_at : ℕ

-- A map by scan target, or the rows of the table, whose primary key is the scan target.
unfoldable pub find : String → List QuarantineEntry → Option QuarantineEntry
find target [] = none
find target (e ∷ entries) =
    let rest = find target entries in if str_eq e.scan_target target then some e else rest

-- m[e.ScanTarget] = e; INSERT … ON CONFLICT(scan_target) DO UPDATE
unfoldable pub put : QuarantineEntry → List QuarantineEntry → List QuarantineEntry
put e [] = e ∷ []
put e (f ∷ entries) =
    let rest = put e entries in if str_eq f.scan_target e.scan_target then e ∷ entries else f ∷ rest

-- delete(m, target); DELETE … WHERE scan_target = ?
unfoldable pub remove : String → List QuarantineEntry → List QuarantineEntry
remove target [] = []
remove target (e ∷ entries) =
    let rest = remove target entries in if str_eq e.scan_target target then rest else e ∷ rest

-- The map of the process and the table of the database.
pub record Quarantine : Type 0 where
  pub blocked : List QuarantineEntry
  pub table : List QuarantineEntry

-- The loop of `Load` over the rows.
unfoldable pub load_rows : List QuarantineEntry → List QuarantineEntry → List QuarantineEntry
load_rows blocked [] = blocked
load_rows blocked (e ∷ rows) = load_rows (put e blocked) rows

-- `Load`; the first argument is whether the query succeeds, and false is the error.
unfoldable pub load : Bool → Quarantine → Quarantine × Bool
unfolding load_rows
load false q = (q, false)
load true q = (record q { blocked = load_rows q.blocked q.table }, true)

unfoldable pub is_blocked : String → Quarantine → Bool
is_blocked target q = elim (find target q.blocked) [ some _ ↦ true | none ↦ false ]

-- `Block` of an entry; the table first.
unfoldable pub block : Bool → QuarantineEntry → Quarantine → Quarantine × Bool
unfolding put
block false e q = (q, false)
block true e q = (record { blocked = put e q.blocked; table = put e q.table }, true)

unfoldable pub clear : Bool → String → Quarantine → Quarantine × Bool
unfolding remove
clear false target q = (q, false)
clear true target q =
    (record { blocked = remove target q.blocked; table = remove target q.table }, true)

-- What happens to a quarantine: calls of its methods, each of which may fail, and a new process over
-- the same table, whose quarantine is loaded.
pub data Event : Type 0 where
  blocks : Bool → QuarantineEntry → Event
  clears : Bool → String → Event
  restarts : Event

unfoldable pub step : Event → Quarantine → Quarantine
unfolding block clear load
step (blocks ok e) q = (block ok e q).0
step (clears ok target) q = (clear ok target q).0
step restarts q = (load true (record { blocked = []; table = q.table })).0

unfoldable pub run : List Event → Quarantine → Quarantine
run [] q = q
run (e ∷ events) q = run events (step e q)

pub record Tool : Type 0 where
  pub name : String
  pub scan_target : String

-- The loop of `NewStageQuarantineFilter`: the tools that are kept.
unfoldable pub filter_tools : Quarantine → List Tool → List Tool
filter_tools q [] = []
filter_tools q (t ∷ tools) =
    let rest = filter_tools q tools in
    if str_eq t.scan_target "" || not (is_blocked t.scan_target q) then t ∷ rest else rest
