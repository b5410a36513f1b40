-- ===== src/Scenarios/Times.antt =====
-- Times that reminders are asked for, on a calendar of one time zone without changes of its clock.
use famclaw.Prelude.{
  ℕ, ◌+◌, ◌-◌, ◌*◌, ◌/◌, ◌%◌, ◌≡◌, refl, Bool, true, false, String, none, some, [], ◌∷◌, map,
  if◌then◌else◌,
}
use famclaw.Prelude.Text.{codes, has_prefix, str_eq}
use famclaw.Notify.Decimal.{parse_int}
use famclaw.Reminder.TimeParser.{parse_time}
use famclaw.Reminder.TimeParser.Words.{Calendar, minute, hour, day_long, format_duration}
use famclaw.Reminder.TimeParser.Relative.{parse_relative}
use famclaw.Gateway.Router.State.{UserConfig}
use famclaw.Reminder.Row.{Reminder}
use famclaw.Reminder.Tool.{
  Deps, Request, refused, only_parents, canonical_name, most_recent, handle_add_reminder,
}
use famclaw.Reminder.Tool.Added.{Added, handle_add_reminder-Added}

-- Day 0 is a Monday.
abbrev calendar : Calendar
calendar = record {
  day = λ t. t / day_long;
  weekday = λ t. (t / day_long + 1) % 7;
  date = λ d h m. d * day_long + h * hour + m * minute;
  add_days = λ t n. t + n * day_long;
}

-- Noon of a Monday.
abbrev noon : ℕ
noon = 1400 * day_long + 12 * hour

three_days : parse_relative calendar noon (codes "in 3 days") ≡ some (noon + 3 * day_long)
unfolding parse_relative parse_int
three_days = refl

at_seven : parse_time calendar noon (codes " At 7:30 PM ") ≡ some (noon + 7 * hour + 30 * minute)
unfolding parse_time parse_int
at_seven = refl

in_two_days :
    parse_time calendar noon (codes "in 2 days at 5 pm") ≡ some (noon + 2 * day_long + 5 * hour)
unfolding parse_time parse_int
in_two_days = refl

next_monday :
    parse_time calendar noon (codes "next monday 09:00") ≡ some (noon + 7 * day_long - 3 * hour)
unfolding parse_time parse_int has_prefix
next_monday = refl

-- The two forms with a clock differ on an hour that has no `pm`.
thirteen_pm : parse_time calendar noon (codes "at 13:00 pm") ≡ some (noon + hour)
unfolding parse_time parse_int
thirteen_pm = refl

thirteen_pm_refused : parse_time calendar noon (codes "in 2 days at 13:00 pm") ≡ none
unfolding parse_time parse_int
thirteen_pm_refused = refl

-- The product of the unit and a large amount wraps around.
three_hundred_thousand_days :
    parse_time calendar noon (codes "in 300000 days")
    ≡ some (noon + (300000 * day_long - 18446744073709551616))
unfolding parse_time parse_int
three_hundred_thousand_days = refl

abbrev two_hours : ℕ
two_hours = 2 * hour + 17 * minute

-- The floats make 171 days of a duration that is a nanosecond shorter.
almost_171_days : format_duration (171 * day_long - 1) ≡ codes "171 days"
unfolding format_duration
almost_171_days = refl

abbrev anna : UserConfig
anna = record { name = "anna"; display_name = "Anna"; role = "parent"; age_group = "" }

abbrev tim : UserConfig
tim = record { name = "tim"; display_name = "Timothy"; role = "child"; age_group = "under_8" }

-- Tim has two accounts and was last seen on the second.
abbrev deps : Deps
deps = record {
  calendar = calendar;
  now = noon;
  users = anna ∷ tim ∷ [];
  accounts = some (
      record { user_name = "tim"; gateway = "discord"; external_id = "d7" }
      ∷ record { user_name = "tim"; gateway = "telegram"; external_id = "t9" }
      ∷ []);
  last_message = λ user gateway. if str_eq gateway "telegram" then some 5 else none;
  insert_ok = true;
  next_id = 4;
}

abbrev homework : Request
homework = record {
  user = anna;
  gateway = "discord";
  external_id = "d1";
  group_id = "family";
  is_group = true;
  asked_time = codes "in 2 hours";
  message = "homework";
  for_user = "TIMOTHY";
}

abbrev own_row : Reminder → String × String × String × Bool
own_row r = (r.user_name, r.gateway, r.external_id, r.is_group)

sent_to_tim :
    map own_row (handle_add_reminder deps homework []).0 ≡ ("tim", "telegram", "t9", false) ∷ []
unfolding handle_add_reminder parse_int canonical_name most_recent
sent_to_tim = refl

not_for_others :
    handle_add_reminder deps (record homework { user = tim; for_user = "anna" }) []
    ≡ ([], refused only_parents)
unfolding handle_add_reminder parse_int canonical_name most_recent
not_for_others = refl

-- The answer names the id 0 for the row with the id 4.
reported_id : map (λ (r : Reminder). r.id) (handle_add_reminder deps homework []).0 ≡ 4 ∷ []
unfolding handle_add_reminder parse_int canonical_name most_recent
reported_id = refl

handle_add_reminder-Added_example : Added deps homework [] (handle_add_reminder deps homework [])
handle_add_reminder-Added_example = handle_add_reminder-Added deps homework []
