-- ===== src/Agentcore/LoopDetector.antt =====
-- The detector of repeated actions (internal/agentcore/loop_detector.go). The 48-bit hash of an
-- action is made before by the caller: SHA-256 and JSON are the standard library's.
pub mod Window
use famclaw.Prelude.{
  ℕ, suc, ◌≤◌, Bool, String, List, [], ◌∷◌, ◌++◌, leb, if◌then◌else◌, length, ◌==◌,
}
use famclaw.Prelude.Text.{str_eq}
use mathlib.Core.List.{tail}
use Prim.Native.Nat.{max}

pub record ActionLoopDetector : Type 0 where
  pub window : List String
  pub cap : ℕ

-- A negative `cap` of the source is treated as 0.
unfoldable pub new_action_loop_detector : ℕ → ActionLoopDetector
new_action_loop_detector cap = record { window = []; cap = if cap == 0 then 20 else cap }

unfoldable pub push : String → ActionLoopDetector → ActionLoopDetector
push hash d =
    let cap' = if d.cap == 0 then 20 else d.cap in
    let kept = if leb cap' (length d.window) then tail d.window else d.window in
    record { window = kept ++ hash ∷ []; cap = cap' }

unfoldable pub count : String → List String → ℕ
count h [] = 0
count h (j ∷ l) = let rest = count h l in if str_eq j h then suc rest else rest

-- The greatest of the entries that `counts` has for the hashes `l`.
unfoldable pub max_count_of : List String → List String → ℕ
max_count_of window [] = 0
max_count_of window (h ∷ l) = max (count h window) (max_count_of window l)

unfoldable pub max_count : List String → ℕ
unfolding max_count_of count
max_count window = max_count_of window window

pub data Nudge : Type 0 where
  silent reconsider repeating stop : Nudge

unfoldable pub nudge : ActionLoopDetector → Nudge
nudge d =
    let n = max_count d.window in
    if leb 12 n then stop else if leb 8 n then repeating else if leb 5 n then reconsider else silent
