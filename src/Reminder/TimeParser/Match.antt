-- ===== src/Reminder/TimeParser/Match.antt =====
-- The regular expressions of internal/reminder/timeparser.go, as matchers on the rest of a text. In each
-- expression a repetition is followed by another kind of character, so that the longest run is taken.
use famclaw.Prelude.{
  ℕ, Bool, ◌&&◌, ◌||◌, Option, none, some, List, [], ◌∷◌, ◌==◌, leb, if◌then◌else◌, ◌>>=◌,
}
use famclaw.Prelude.Text.{codes, same_text}
use famclaw.Notify.Decimal.{parse_int, nonneg, neg, max_int64}

-- The rest of a text behind a word.
unfoldable pub after : List ℕ → List ℕ → Option (List ℕ)
after [] s = some s
after (p ∷ word) [] = none
after (p ∷ word) (c ∷ s) = let rest = after word s in if p == c then rest else none

-- The white space of a regular expression, `\s`.
abbrev pub is_blank : ℕ → Bool
is_blank c = c == 32 || c == 9 || c == 10 || c == 12 || c == 13

unfoldable pub skip_blanks : List ℕ → List ℕ
skip_blanks [] = []
skip_blanks (c ∷ s) = let rest = skip_blanks s in if is_blank c then rest else c ∷ s

-- `\s+`
unfoldable pub blanks : List ℕ → Option (List ℕ)
unfolding skip_blanks
blanks [] = none
blanks (c ∷ s) = if is_blank c then some (skip_blanks s) else none

-- A word and `\s+`.
unfoldable pub word_blanks : List ℕ → List ℕ → Option (List ℕ)
unfolding after blanks
word_blanks word s = after word s >>= λ r. blanks r

-- `(?:word\s+)?`
unfoldable pub maybe_word : List ℕ → List ℕ → List ℕ
unfolding word_blanks
maybe_word word s = elim (word_blanks word s) [ some r ↦ r | none ↦ s ]

abbrev pub is_digit : ℕ → Bool
is_digit c = leb b'0' c && leb c b'9'

abbrev pub with_digit : ℕ → List ℕ × List ℕ → List ℕ × List ℕ
with_digit c (ds, rest) = (c ∷ ds, rest)

-- The digits at the start of a text, and what is behind them.
unfoldable pub split_digits : List ℕ → List ℕ × List ℕ
split_digits [] = ([], [])
split_digits (c ∷ s) =
    let rest = split_digits s in if is_digit c then with_digit c rest else ([], c ∷ s)

-- `strconv.Atoi` of digits, with its error ignored: the value is then the largest int.
unfoldable pub atoi : List ℕ → ℕ
unfolding parse_int
atoi ds = elim (parse_int ds) [ some (nonneg n) ↦ n | some (neg n) ↦ max_int64 | none ↦ max_int64 ]

abbrev pub at_least_one : List ℕ × List ℕ → Option (List ℕ × List ℕ)
at_least_one ([], rest) = none
at_least_one (c ∷ ds, rest) = some (c ∷ ds, rest)

abbrev at_most_two : List ℕ × List ℕ → Option (List ℕ × List ℕ)
at_most_two ([], rest) = none
at_most_two (c ∷ [], rest) = some (c ∷ [], rest)
at_most_two (c ∷ d ∷ [], rest) = some (c ∷ d ∷ [], rest)
at_most_two (c ∷ d ∷ e ∷ ds, rest) = none

abbrev exactly_two : List ℕ × List ℕ → Option (List ℕ × List ℕ)
exactly_two ([], rest) = none
exactly_two (c ∷ [], rest) = none
exactly_two (c ∷ d ∷ [], rest) = some (c ∷ d ∷ [], rest)
exactly_two (c ∷ d ∷ e ∷ ds, rest) = none

-- `(\d+)`, before something that is not a digit.
unfoldable pub number : List ℕ → Option (List ℕ × List ℕ)
unfolding split_digits
number s = at_least_one (split_digits s)

-- `(\d{1,2})`, before something that is not a digit.
unfoldable pub one_or_two : List ℕ → Option (List ℕ × List ℕ)
unfolding split_digits
one_or_two s = at_most_two (split_digits s)

-- `(\d{2})`, before something that is not a digit.
unfoldable pub two_digits : List ℕ → Option (List ℕ × List ℕ)
unfolding split_digits
two_digits s = exactly_two (split_digits s)

pub data Meridiem : Type 0 where
  absent am pm : Meridiem

-- `(am|pm)$`
unfoldable pub am_or_pm : List ℕ → Option Meridiem
am_or_pm s =
    if same_text s (codes "am") then some am else if same_text s (codes "pm") then some pm else none

-- `\s*(am|pm)?$`
unfoldable pub maybe_meridiem : List ℕ → Option Meridiem
unfolding skip_blanks am_or_pm
maybe_meridiem s = elim (skip_blanks s) [ [] ↦ some absent | (c ∷ r) ↦ am_or_pm (c ∷ r) ]

pub record Clock : Type 0 where
  pub hour : ℕ
  pub minute : ℕ
  pub meridiem : Meridiem

-- `(\d{1,2}):(\d{2})\s*(am|pm)?$`
unfoldable pub clock : List ℕ → Option Clock
unfolding one_or_two two_digits maybe_meridiem after atoi
clock s = one_or_two s >>= λ (h, r). after (codes ":") r >>= λ t. two_digits t >>= λ (m, u).
    maybe_meridiem u >>= λ d. some (record { hour = atoi h; minute = atoi m; meridiem = d })

-- `(\d{1,2})\s+(am|pm)$`
unfoldable pub hour_clock : List ℕ → Option Clock
unfolding one_or_two blanks am_or_pm atoi
hour_clock s = one_or_two s >>= λ (h, r).
    blanks r >>= λ t. am_or_pm t >>= λ d. some (record { hour = atoi h; minute = 0; meridiem = d })
