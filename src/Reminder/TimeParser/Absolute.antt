-- ===== src/Reminder/TimeParser/Absolute.antt =====
-- `parseAbsolute` of internal/reminder/timeparser.go.
use famclaw.Prelude.{
  ℕ, ◌+◌, ◌-◌, ◌%◌, Bool, ◌||◌, Option, none, some, List, [], ◌∷◌, String, ◌==◌, ltb, if◌then◌else◌,
  ◌>>=◌,
}
use famclaw.Prelude.Text.{codes, same_text, has_prefix}
use famclaw.Reminder.TimeParser.Match.{Clock, clock, word_blanks, maybe_word}
use famclaw.Reminder.TimeParser.Words.{Calendar, day_long, add, apply_meridiem, any_of}

unfoldable pub parse_day_of_week : List ℕ → ℕ
parse_day_of_week s =
    if same_text s (codes "monday")
    then 1
    else if same_text s (codes "tuesday")
    then 2
    else if same_text s (codes "wednesday")
    then 3
    else if same_text s (codes "thursday")
    then 4
    else if same_text s (codes "friday")
    then 5
    else if same_text s (codes "saturday")
    then 6
    else 0

unfoldable pub period_start_hour : List ℕ → ℕ
period_start_hour s =
    if same_text s (codes "morning")
    then 9
    else if same_text s (codes "afternoon")
    then 14
    else if same_text s (codes "evening")
    then 18
    else if same_text s (codes "night")
    then 21
    else 9

-- The guard on an hour and a minute that are read.
abbrev out_of_day : Clock → Bool
out_of_day c = ltb 23 c.hour || ltb 59 c.minute

-- The time of a clock on the day of `now`, or a day later when it is past.
unfoldable pub on_today : Calendar → ℕ → Clock → Option ℕ
unfolding add apply_meridiem
on_today cal now c =
    if out_of_day c
    then none
    else (let t = cal.date (cal.day now) (apply_meridiem c.hour c.meridiem) c.minute in
        some (if ltb t now then add t day_long else t))

unfoldable pub on_tomorrow : Calendar → ℕ → Clock → Option ℕ
unfolding add apply_meridiem
on_tomorrow cal now c =
    if out_of_day c
    then none
    else some (cal.date (cal.day (add now day_long)) (apply_meridiem c.hour c.meridiem) c.minute)

-- The first day of the list that the text starts with, and what is behind it and `\s+`.
unfoldable pub weekday_name : List String → List ℕ → Option (List ℕ × List ℕ)
unfolding word_blanks
weekday_name [] s = none
weekday_name (name ∷ names) s =
    let rest = weekday_name names s in
    elim (word_blanks (codes name) s) [ some r ↦ some (codes name, r) | none ↦ rest ]

abbrev pub weekdays : List String
weekdays = "monday" ∷ "tuesday" ∷ "wednesday" ∷ "thursday" ∷ "friday" ∷ "saturday" ∷ "sunday" ∷ []

-- How many days ahead a day of the week is, from 1 on.
unfoldable pub days_ahead : ℕ → ℕ → Bool → ℕ
days_ahead target today next =
    let ahead = (target + 7 - today) % 7 in if next || ahead == 0 then ahead + 7 else ahead

unfoldable pub on_weekday : Calendar → ℕ → Bool → List ℕ → Clock → Option ℕ
unfolding apply_meridiem parse_day_of_week days_ahead
on_weekday cal now next name c =
    if out_of_day c
    then none
    else (let t = cal.add_days now (days_ahead (parse_day_of_week name) (cal.weekday now) next) in
        some (cal.date (cal.day t) (apply_meridiem c.hour c.meridiem) c.minute))

abbrev periods : List String
periods = "morning" ∷ "afternoon" ∷ "evening" ∷ "night" ∷ []

unfoldable pub tomorrow_period : Calendar → ℕ → List ℕ → Option ℕ
unfolding add period_start_hour
tomorrow_period cal now s =
    if any_of periods s
    then some (cal.date (cal.day (add now day_long)) (period_start_hour s) 0)
    else none

unfoldable pub day_of_week : Calendar → ℕ → List ℕ → Option ℕ
unfolding on_weekday weekday_name maybe_word clock
day_of_week cal now s = weekday_name weekdays (maybe_word (codes "next") s) >>= λ (name, r).
    clock (maybe_word (codes "at") r) >>= λ c.
    on_weekday cal now (has_prefix (codes "next ") s) name c

-- The expressions of `parseAbsolute` in their order.
abbrev tried : Option Clock → (Clock → Option ℕ) → Option ℕ → Option ℕ
tried none use_it rest = rest
tried (some c) use_it rest = use_it c

unfoldable pub parse_absolute : Calendar → ℕ → List ℕ → Option ℕ
unfolding on_today on_tomorrow tomorrow_period day_of_week word_blanks maybe_word clock
parse_absolute cal now s =
    let at_clock =
      λ (word : String). word_blanks (codes word) s >>= λ r. clock (maybe_word (codes "at") r) in
    tried (word_blanks (codes "at") s >>= λ r. clock r) (on_today cal now) (
      tried (at_clock "tomorrow") (on_tomorrow cal now) (
        tried (at_clock "today") (on_today cal now)
          (elim (word_blanks (codes "tomorrow") s >>= λ r. tomorrow_period cal now r) [
            | some t ↦ some t
            | none ↦ day_of_week cal now s
          ])))
