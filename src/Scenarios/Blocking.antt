-- ===== src/Scenarios/Blocking.antt =====
-- A tool is blocked, another blocking fails, and the process restarts.
use famclaw.Prelude.{refl, true, false, String, List, [], ◌∷◌, All}
use mathlib.Core.List.{Sublistᴰ}
use famclaw.Quarantine.{
  QuarantineEntry, Quarantine, Event, blocks, clears, restarts, block, run, Tool, filter_tools,
}
use famclaw.Quarantine.Persistence.{Agrees, run-Agrees}
use famclaw.Quarantine.Filter.{Other, filter_tools-run}

abbrev entry : String → QuarantineEntry
entry target = record {
  scan_target = target;
  tool_name = "mcp__weather__forecast";
  verdict = "FAIL";
  reasoning = "";
  key_finding = "";
  blocked_at = 1;
}

abbrev empty : Quarantine
empty = record { blocked = []; table = [] }

abbrev events : List Event
events = blocks false (entry "b") ∷ restarts ∷ clears true "c" ∷ []

abbrev tools : List Tool
tools =
    record { name = "forecast"; scan_target = "a" }
    ∷ record { name = "spawn"; scan_target = "" }
    ∷ record { name = "other"; scan_target = "b" }
    ∷ []

empty-Agrees : Agrees empty
empty-Agrees = record { keyed = tt; same = λ t. refl }

filter_tools-run_example :
    All (Other "a") (filter_tools (run events (block true (entry "a") empty).0) tools)
    × Sublistᴰ (filter_tools (run events (block true (entry "a") empty).0) tools) tools
filter_tools-run_example =
    filter_tools-run (entry "a") events empty tools empty-Agrees (λ e. cc) (tt, (tt, (refl, tt)))

run-Agrees_example : Agrees (run events empty)
run-Agrees_example = run-Agrees events empty empty-Agrees
