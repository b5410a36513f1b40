-- ===== src/Reminder/TimeParser.antt =====
-- `ParseTime` of internal/reminder/timeparser.go, which tries the forms of its children in turn.
pub mod Match
pub mod Float
pub mod Words
mod Near
pub mod Absolute
pub mod Relative
pub mod Shown
use famclaw.Prelude.{
  ℕ, ◌+◌, ◌-◌, ◌*◌, ◌/◌, ◌%◌, Bool, true, false, ◌||◌, ◌&&◌, Option, none, some, List, [], ◌∷◌,
  ◌++◌, String, ◌==◌, ltb, if◌then◌else◌, ◌>>=◌, not,
}
use famclaw.Prelude.Text.{codes, same_text, has_prefix, trim_space, to_lower}
use Match.{
  Meridiem, absent, am, pm, Clock, clock, hour_clock, after, blanks, word_blanks, maybe_word,
  number, atoi,
}
use Words.{
  Calendar, second, minute, hour, day_long, times, add, apply_meridiem, any_of, unit_to_duration,
}
use Absolute.{parse_absolute}
use Relative.{parse_relative}

unfoldable pub shorthand_unit : List ℕ → Option ℕ
shorthand_unit s =
    if same_text s (codes "s")
    then some second
    else if same_text s (codes "m")
    then some minute
    else if same_text s (codes "h")
    then some hour
    else if same_text s (codes "d")
    then some day_long
    else none

unfoldable pub parse_shorthand : ℕ → List ℕ → Option ℕ
unfolding number shorthand_unit atoi add times
parse_shorthand now s =
    number s >>= λ (ds, r). shorthand_unit r >>= λ unit. some (add now (times unit (atoi ds)))

abbrev or_else : Option ℕ → Option ℕ → Option ℕ
or_else none rest = rest
or_else (some t) rest = some t

-- `none` is the error.
unfoldable pub parse_time : Calendar → ℕ → List ℕ → Option ℕ
unfolding to_lower trim_space parse_absolute parse_relative parse_shorthand
parse_time cal now input =
    let s = trim_space (to_lower input) in
    if same_text s []
    then none
    else or_else (parse_absolute cal now s)
        (or_else (parse_relative cal now s) (parse_shorthand now s))
