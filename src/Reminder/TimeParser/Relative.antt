-- ===== src/Reminder/TimeParser/Relative.antt =====
-- `parseRelative` of internal/reminder/timeparser.go.
use famclaw.Prelude.{
  ℕ, ◌*◌, Bool, false, ◌||◌, Option, none, some, List, [], ◌∷◌, String, ◌==◌, ltb, if◌then◌else◌,
  ◌>>=◌, not,
}
use famclaw.Prelude.Text.{codes, same_text}
use famclaw.Reminder.TimeParser.Match.{
  Meridiem, absent, am, pm, Clock, clock, hour_clock, blanks, word_blanks, maybe_word, number, atoi,
}
use famclaw.Reminder.TimeParser.Words.{
  Calendar, minute, hour, times, add, apply_meridiem, any_of, unit_to_duration,
}

unfoldable pub days_offset : Calendar → ℕ → ℕ → Clock → Option ℕ
unfolding apply_meridiem
days_offset cal now days c =
    let target = cal.add_days now days in
    let t = cal.date (cal.day target) (apply_meridiem c.hour c.meridiem) c.minute in
    some (if ltb t now then cal.add_days t 1 else t)

-- An hour with `am` or `pm` is from 1 to 12.
unfoldable pub hour_allowed : ℕ → Meridiem → Bool
hour_allowed h absent = not (ltb 23 h)
hour_allowed h am = not (ltb h 1 || ltb 12 h)
hour_allowed h pm = not (ltb h 1 || ltb 12 h)

unfoldable pub in_days : Calendar → ℕ → ℕ → Clock → Option ℕ
unfolding days_offset hour_allowed
in_days cal now days c =
    if ltb 59 c.minute
    then none
    else if hour_allowed c.hour c.meridiem
    then days_offset cal now days c
    else none

-- `days?\s+(?:at\s+)?`
unfoldable pub behind_days : List ℕ → Option (List ℕ)
unfolding word_blanks maybe_word
behind_days s = elim (word_blanks (codes "days") s) [
  | some r ↦ some (maybe_word (codes "at") r)
  | none ↦ word_blanks (codes "day") s >>= λ r. some (maybe_word (codes "at") r)
]

-- `in\s+half(?:\s+an)?\s+hour$`, from the text behind `in\s+`.
unfoldable pub half_hour : List ℕ → Bool
unfolding word_blanks maybe_word
half_hour s = elim (word_blanks (codes "half") s) [
  | some r ↦ same_text (maybe_word (codes "an") r) (codes "hour")
  | none ↦ false
]

abbrev pub units : List String
units =
    "minute" ∷ "minutes" ∷ "min" ∷ "mins" ∷ "second" ∷ "seconds" ∷ "sec" ∷ "secs" ∷ "hour" ∷ "hours"
    ∷ "hr" ∷ "hrs" ∷ "day" ∷ "days" ∷ "m" ∷ "h" ∷ "s" ∷ "d" ∷ []

-- The amount and the unit of `in\s+(?:(\d+)\s+|an?\s+)(unit)$`, from the text behind `in\s+`.
unfoldable pub amount_unit : List ℕ → Option (ℕ × List ℕ)
unfolding number blanks word_blanks atoi
amount_unit s = elim (number s) [
  | some (ds, r) ↦ blanks r >>= λ u. if any_of units u then some (atoi ds, u) else none
  | none ↦ elim (word_blanks (codes "an") s) [
    | some u ↦ if any_of units u then some (1, u) else none
    | none ↦ word_blanks (codes "a") s >>= λ u. if any_of units u then some (1, u) else none
  ]
]

abbrev pub spanned : ℕ → ℕ → ℕ → Option ℕ
spanned now unit n = if unit == 0 then none else some (add now (times unit n))

unfoldable pub in_units : ℕ → List ℕ → Option ℕ
unfolding add times amount_unit unit_to_duration
in_units now s = amount_unit s >>= λ (n, u). spanned now (unit_to_duration u) n

-- The number of days and what is behind them, of `in\s+(\d+)\s+days?\s+(?:at\s+)?`.
unfoldable pub days_text : List ℕ → Option (ℕ × List ℕ)
unfolding number blanks behind_days atoi
days_text s = number s >>= λ (ds, r). blanks r >>= λ t. behind_days t >>= λ u. some (atoi ds, u)

abbrev tried_days : Option (ℕ × Clock) → (ℕ → Clock → Option ℕ) → Option ℕ → Option ℕ
tried_days none use_it rest = rest
tried_days (some (n, c)) use_it rest = use_it n c

-- `parseRelative`, from the text behind `in\s+`; `one_hour` says whether the whole text is "in hour".
unfoldable pub relative_from : Calendar → ℕ → Bool → List ℕ → Option ℕ
unfolding in_days days_text clock hour_clock half_hour in_units add
relative_from cal now one_hour s =
    tried_days (days_text s >>= λ (n, r). clock r >>= λ c. some (n, c)) (in_days cal now) (
      tried_days (days_text s >>= λ (n, r). hour_clock r >>= λ c. some (n, c)) (in_days cal now) (
        if half_hour s
        then some (add now (30 * minute))
        else if one_hour
        then some (add now hour)
        else in_units now s))

unfoldable pub parse_relative : Calendar → ℕ → List ℕ → Option ℕ
unfolding relative_from word_blanks
parse_relative cal now s =
    word_blanks (codes "in") s >>= λ r. relative_from cal now (same_text s (codes "in hour")) r
