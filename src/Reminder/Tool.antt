-- ===== src/Reminder/Tool.antt =====
-- `HandleAddReminder` of internal/reminder/tool.go, with what it calls: `CanonicalName` of
-- internal/config/config.go, and `MostRecentGatewayAndExternalIDForUser` and `CreateReminder` of
-- internal/store/db.go.
use famclaw.Prelude.{
  ℕ, ◌/◌, Bool, true, false, not, ◌||◌, ◌&&◌, String, Option, none, some, List, [], ◌∷◌, ◌==◌, leb,
  ltb, if◌then◌else◌,
}
use famclaw.Prelude.Text.{str_eq, codes, equal_fold}
use famclaw.Gateway.Router.State.{UserConfig}
use famclaw.Reminder.Row.{Reminder, pending, unset}
use famclaw.Reminder.TimeParser.{parse_time}
use famclaw.Reminder.TimeParser.Words.{Calendar, second}
pub mod Added

-- The name of the first user for whom the test holds.
unfoldable pub first_name : (UserConfig → Bool) → List UserConfig → Option String
first_name test [] = none
first_name test (u ∷ users) =
    let rest = first_name test users in if test u then some u.name else rest

abbrev pub or_name : Option String → Option String → Option String
or_name none rest = rest
or_name (some n) rest = some n

unfoldable pub canonical_name : List UserConfig → String → Option String
unfolding first_name equal_fold
canonical_name users name =
    if str_eq name ""
    then none
    else or_name (first_name (λ u. str_eq u.name name) users) (
        or_name (first_name (λ u. equal_fold (codes u.name) (codes name)) users) (
          first_name
            (λ u. not (str_eq u.display_name "") && equal_fold (codes u.display_name) (codes name))
            users))

-- A row of the table gateway_accounts.
pub record Account : Type 0 where
  pub user_name : String
  pub gateway : String
  pub external_id : String

unfoldable text_before : List ℕ → List ℕ → Bool
text_before s [] = false
text_before [] (d ∷ t) = true
text_before (c ∷ s) (d ∷ t) = let rest = text_before s t in ltb c d || (c == d && rest)

-- ORDER BY (last_msg IS NULL), last_msg DESC, gateway ASC
unfoldable before : Option ℕ → Option ℕ → Bool → Bool
before none none by_name = by_name
before none (some u) by_name = false
before (some t) none by_name = true
before (some t) (some u) by_name = ltb u t || (t == u && by_name)

unfoldable pub preferred : (String → Option ℕ) → Account → Account → Bool
unfolding before text_before
preferred last_message a b =
    before (last_message a.gateway) (last_message b.gateway)
      (text_before (codes a.gateway) (codes b.gateway))

abbrev pub prefer : (String → Option ℕ) → Account → Option Account → Option Account
prefer last_message a none = some a
prefer last_message a (some b) = if preferred last_message b a then some b else some a

-- The account of a user that the query selects; the time of the user's last message on a gateway is
-- given.
unfoldable pub most_recent : (String → Option ℕ) → String → List Account → Option Account
unfolding preferred
most_recent last_message user [] = none
most_recent last_message user (a ∷ accounts) =
    let rest = most_recent last_message user accounts in
    if str_eq a.user_name user then prefer last_message a rest else rest

-- What the handler is called with; `accounts` is `none` if the query fails, `next_id` the id that the
-- table gives to the next row.
pub record Deps : Type 0 where
  pub calendar : Calendar
  pub now : ℕ
  pub users : List UserConfig
  pub accounts : Option (List Account)
  pub last_message : String → String → Option ℕ
  pub insert_ok : Bool
  pub next_id : ℕ

pub record Request : Type 0 where
  pub user : UserConfig
  pub gateway : String
  pub external_id : String
  pub group_id : String
  pub is_group : Bool
  pub asked_time : List ℕ
  pub message : String
  pub for_user : String

pub data Failure : Type 0 where
  invalid_time not_in_future only_parents not_a_member gateway_query no_account not_created :
      Failure

pub record Scheduled : Type 0 where
  pub reminder_id : ℕ
  pub due_at : ℕ
  pub message : String
  pub for_user : String
  pub setter_gateway : String

pub data Outcome : Type 0 where
  refused : Failure → Outcome
  scheduled : Scheduled → Outcome

-- Where a reminder is sent.
pub record Target : Type 0 where
  pub user_name : String
  pub gateway : String
  pub external_id : String
  pub group_id : String
  pub is_group : Bool

abbrev pub reminder_row : Deps → Request → ℕ → Target → Reminder
reminder_row d q due t = record {
  id = d.next_id;
  user_name = t.user_name;
  gateway = t.gateway;
  external_id = t.external_id;
  group_id = t.group_id;
  is_group = t.is_group;
  message = q.message;
  due_at = due / second;
  dispatched = false;
  dispatched_at = none;
  setter_gateway = q.gateway;
  setter_external_id = q.external_id;
  delivery_attempts = 0;
  delivery_state = pending;
  terminal_attempts = 0;
  undelivered_reason = unset;
}

-- The id in the answer is the one of the struct, which the insertion leaves at 0.
unfoldable pub create : Deps → Request → ℕ → Target → List Reminder → List Reminder × Outcome
create d q due t rows =
    if d.insert_ok
    then (
      reminder_row d q due t ∷ rows,
      scheduled (record {
        reminder_id = 0;
        due_at = due / second;
        message = q.message;
        for_user = t.user_name;
        setter_gateway = q.gateway;
      }),
    )
    else (rows, refused not_created)

abbrev pub linked_target : String → Account → Target
linked_target name a = record {
  user_name = name;
  gateway = a.gateway;
  external_id = a.external_id;
  group_id = "";
  is_group = false;
}

unfoldable pub after_account :
    Deps → Request → ℕ → String → Option Account → List Reminder → List Reminder × Outcome
unfolding create
after_account d q due name none rows = (rows, refused no_account)
after_account d q due name (some a) rows =
    if str_eq a.gateway "" || str_eq a.external_id ""
    then (rows, refused no_account)
    else create d q due (linked_target name a) rows

unfoldable pub after_query :
    Deps → Request → ℕ → String → Option (List Account) → List Reminder → List Reminder × Outcome
unfolding after_account most_recent
after_query d q due name none rows = (rows, refused gateway_query)
after_query d q due name (some accounts) rows =
    after_account d q due name (most_recent (d.last_message name) name accounts) rows

unfoldable pub after_name :
    Deps → Request → ℕ → Option String → List Reminder → List Reminder × Outcome
unfolding after_query
after_name d q due none rows = (rows, refused not_a_member)
after_name d q due (some name) rows = after_query d q due name d.accounts rows

abbrev pub own_target : Request → Target
own_target q = record {
  user_name = q.user.name;
  gateway = q.gateway;
  external_id = q.external_id;
  group_id = q.group_id;
  is_group = q.is_group;
}

unfoldable pub to_target : Deps → Request → ℕ → List Reminder → List Reminder × Outcome
unfolding create after_name canonical_name
to_target d q due rows =
    if str_eq q.for_user ""
    then create d q due (own_target q) rows
    else if str_eq q.user.role "parent"
    then after_name d q due (canonical_name d.users q.for_user) rows
    else (rows, refused only_parents)

unfoldable pub after_time : Deps → Request → Option ℕ → List Reminder → List Reminder × Outcome
unfolding to_target
after_time d q none rows = (rows, refused invalid_time)
after_time d q (some due) rows =
    if leb due d.now then (rows, refused not_in_future) else to_target d q due rows

unfoldable pub handle_add_reminder : Deps → Request → List Reminder → List Reminder × Outcome
unfolding after_time parse_time
handle_add_reminder d q rows = after_time d q (parse_time d.calendar d.now q.asked_time) rows
