-- ===== src/Reminder/TimeParser/Words.antt =====
-- The calendar, the durations and the units of internal/reminder/timeparser.go. A time is the number of
-- its nanoseconds since the year 1, a duration the 64 bits of an int64, and one that is printed is not
-- negative.
use famclaw.Prelude.{
  ℕ, ◌+◌, ◌-◌, ◌*◌, ◌/◌, ◌%◌, Bool, false, ◌||◌, List, [], ◌∷◌, ◌++◌, String, ◌==◌, ltb,
  if◌then◌else◌,
}
use famclaw.Prelude.Text.{codes, same_text}
use famclaw.Notify.Decimal.{format_int}
use famclaw.Reminder.TimeParser.Float.{Float, of_int, divided, plus, whole}
use famclaw.Reminder.TimeParser.Match.{Meridiem, absent, am, pm}

-- What the parser uses of a calendar: the number of the day that a time is on, the day of the week of a
-- time (0 is Sunday), `time.Date` of a day, an hour and a minute, and `AddDate(0, 0, n)`.
pub record Calendar : Type 0 where
  pub day : ℕ → ℕ
  pub weekday : ℕ → ℕ
  pub date : ℕ → ℕ → ℕ → ℕ
  pub add_days : ℕ → ℕ → ℕ

abbrev pub second : ℕ
second = 1000000000

abbrev pub minute : ℕ
minute = 60000000000

abbrev pub hour : ℕ
hour = 3600000000000

abbrev pub day_long : ℕ
day_long = 86400000000000

abbrev word : ℕ
word = 18446744073709551616

-- The product of two durations, of 64 bits.
unfoldable pub times : ℕ → ℕ → ℕ
times d n = d * n % word

-- `t.Add(d)`, where a duration from `2 ^ 63` on is negative.
unfoldable pub add : ℕ → ℕ → ℕ
add t d = if ltb d (word / 2) then t + d else t - (word - d)

unfoldable pub apply_meridiem : ℕ → Meridiem → ℕ
apply_meridiem h absent = h
apply_meridiem h am = if h == 12 then 0 else h
apply_meridiem h pm = if ltb h 12 then h + 12 else h

abbrev pub any_of : List String → List ℕ → Bool
any_of [] s = false
any_of (name ∷ names) s = same_text s (codes name) || any_of names s

unfoldable pub unit_to_duration : List ℕ → ℕ
unit_to_duration s =
    if any_of ("minute" ∷ "minutes" ∷ "min" ∷ "mins" ∷ "m" ∷ []) s
    then minute
    else if any_of ("second" ∷ "seconds" ∷ "sec" ∷ "secs" ∷ "s" ∷ []) s
    then second
    else if any_of ("hour" ∷ "hours" ∷ "hr" ∷ "hrs" ∷ "h" ∷ []) s
    then hour
    else if any_of ("day" ∷ "days" ∷ "d" ∷ []) s
    then day_long
    else 0

abbrev pub counted : ℕ → String → String → List ℕ
counted n one many = if n == 1 then codes one else format_int n ++ codes many

-- `d.Minutes()` and `d.Hours()`
unfoldable pub minutes : ℕ → Float
unfolding plus divided of_int
minutes d = plus (of_int (d / minute)) (divided (of_int (d % minute)) minute)

unfoldable pub hours : ℕ → Float
unfolding plus divided of_int
hours d = plus (of_int (d / hour)) (divided (of_int (d % hour)) hour)

unfoldable pub format_duration : ℕ → List ℕ
unfolding format_int minutes hours whole divided
format_duration d =
    if ltb d minute
    then codes "less than a minute"
    else if ltb d hour
    then counted (whole (minutes d)) "1 minute" " minutes"
    else if ltb d day_long
    then counted (whole (hours d)) "1 hour" " hours"
    else counted (whole (divided (hours d) 24)) "1 day" " days"
