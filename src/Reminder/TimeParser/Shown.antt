-- ===== src/Reminder/TimeParser/Shown.antt =====
-- A duration that `FormatDuration` prints, read by `parseRelative`.
use famclaw.Prelude.{
  ℕ, ◌+◌, ◌*◌, ◌≡◌, refl, true, none, some, List, [], ◌∷◌, ◌++◌, ltb, if◌then◌else◌, arith, All,
}
use famclaw.Prelude.Text.{codes}
use famclaw.Notify.Decimal.{IsDigit}
use famclaw.Reminder.TimeParser.Match.{skip_blanks, is_digit, split_digits}
use famclaw.Reminder.TimeParser.Near.{IsNear}
use famclaw.Reminder.TimeParser.Words.{Calendar, minute, hour, day_long, any_of, unit_to_duration}
use famclaw.Reminder.TimeParser.Relative.{units, behind_days, parse_relative}

pub split_digits-append :
    (ds u : List ℕ) → All IsDigit ds → split_digits (ds ++ (32 ∷ u)) ≡ (ds, 32 ∷ u)
unfolding split_digits
split_digits-append [] u h = refl
split_digits-append (c ∷ ds) u h =
    let ih = split_digits-append ds u h.1 in
    let d : is_digit c ≡ true = ground (arith, h.0) in rw (d, ih) refl

-- The largest unit that is printed of a duration from a minute on.
abbrev pub shown_unit : ℕ → ℕ
shown_unit d = if ltb d hour then minute else if ltb d day_long then hour else day_long

-- A text that names a unit, and is not `days` with a time of the day behind it.
abbrev IsUnit : ℕ → List ℕ → Type 0
IsUnit unit u =
    (behind_days (skip_blanks u) ≡ none)
    × (any_of units (skip_blanks u) ≡ true)
    × (unit_to_duration (skip_blanks u) ≡ unit)

-- The text of a number of units is read as them, and they are near the duration.
abbrev pub IsReadNear : Calendar → ℕ → ℕ → ℕ → List ℕ → Type 0
IsReadNear cal now d unit text =
    (n : ℕ) × (parse_relative cal now (codes "in " ++ text) ≡ some (now + unit * n))
    × IsNear d unit n
