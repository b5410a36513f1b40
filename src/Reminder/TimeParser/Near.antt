-- ===== src/Reminder/TimeParser/Near.antt =====
-- What the floats of `FormatDuration` make of a duration: its units, rounded down or up.
use famclaw.Prelude.{
  ℕ, ◌+◌, ◌*◌, ◌/◌, ◌%◌, ◌≤◌, ◌<◌, ◌≡◌, ◌==◌, if◌then◌else◌, arith, Bool-cases, inl, inr,
}
use famclaw.Reminder.TimeParser.Float.{
  Float, of_int, divided, whole, Between, of_int-Between, Between-weaken, divided-Between,
  plus-Between, whole_bounds,
}
use famclaw.Reminder.TimeParser.Words.{minutes, hours, minute, hour, day_long}

-- One more for a duration that is not a multiple of the unit.
abbrev pub up : ℕ → ℕ → ℕ
up d unit = if d % unit == 0 then 0 else 1

-- A number of units that a duration is rounded to: down or up, and not at all if it is a multiple.
abbrev pub IsNear : ℕ → ℕ → ℕ → Type 0
IsNear d unit n = (d / unit ≤ n) × (n ≤ d / unit + 1) × (d % unit ≡ 0 → n ≡ d / unit)

pub near :
    (d unit : ℕ) (x : Float) → Between x (d / unit) (d / unit + up d unit) → IsNear d unit (whole x)
near d unit x h =
    let b = whole_bounds x (d / unit) (d / unit + up d unit) h in
    elim (Bool-cases (d % unit == 0)) [
      | inl z ↦ let u = rw z at b.1 in (b.0, omega arith, λ e. omega arith)
      | inr n ↦ let u = rw n at b.1 in (b.0, u, λ e. absurd (ground arith))
    ]

fraction-Between :
    (r unit : ℕ) → r < unit → Between (divided (of_int r) unit) 0 (if r == 0 then 0 else 1)
fraction-Between r unit h =
    divided-Between (of_int r) unit 0 (if r == 0 then 0 else 1) (omega arith) (
      Between-weaken (of_int r) r r (0 * unit) ((if r == 0 then 0 else 1) * unit) (of_int-Between r)
        (omega arith) (ground arith))

pub minutes-Between : (d : ℕ) → Between (minutes d) (d / minute) (d / minute + up d minute)
unfolding minutes
minutes-Between d =
    Between-weaken (minutes d) (d / minute + 0) (d / minute + up d minute) (d / minute)
      (d / minute + up d minute)
      (plus-Between (of_int (d / minute)) (divided (of_int (d % minute)) minute) (d / minute)
        (d / minute) 0 (up d minute) (of_int-Between (d / minute))
        (fraction-Between (d % minute) minute (omega arith)))
      (omega arith) (omega arith)

pub hours-Between : (d : ℕ) → Between (hours d) (d / hour) (d / hour + up d hour)
unfolding hours
hours-Between d =
    Between-weaken (hours d) (d / hour + 0) (d / hour + up d hour) (d / hour) (d / hour + up d hour)
      (plus-Between (of_int (d / hour)) (divided (of_int (d % hour)) hour) (d / hour) (d / hour) 0
        (up d hour) (of_int-Between (d / hour)) (fraction-Between (d % hour) hour (omega arith)))
      (omega arith) (omega arith)

pub days-Between :
    (d : ℕ) → Between (divided (hours d) 24) (d / day_long) (d / day_long + up d day_long)
days-Between d =
    divided-Between (hours d) 24 (d / day_long) (d / day_long + up d day_long) (omega arith) (
      Between-weaken (hours d) (d / hour) (d / hour + up d hour) (d / day_long * 24)
        ((d / day_long + up d day_long) * 24) (hours-Between d) (omega arith) (ground arith))
