-- ===== src/Reminder/Tool/Added.antt =====
-- What `HandleAddReminder` adds, and for whom.
use famclaw.Prelude.{
  ℕ, ◌/◌, ◌<◌, ◌≡◌, ◌⊎◌, refl, Bool, true, false, ◌||◌, String, Option, none, some, List, [], ◌∷◌,
  leb, if◌then◌else◌, arith, Bool-cases, inl, inr,
}
use mathlib.Core.Option.{some-injective}
use famclaw.Prelude.Text.{str_eq, eq_iff}
use famclaw.Gateway.Router.State.{UserConfig}
use famclaw.Reminder.Row.{Reminder, chat_id, pending}
use famclaw.Reminder.TimeParser.{parse_time}
use famclaw.Reminder.Tool.{
  Account, Deps, Request, Outcome, refused, scheduled, Target, reminder_row, create, after_account,
  after_query, after_name, own_target, linked_target, to_target, after_time, handle_add_reminder,
  first_name, or_name, canonical_name, preferred, prefer, most_recent,
}

abbrev pub IsName : String → List UserConfig → Type 0
IsName name [] = ⊥
IsName name (u ∷ users) = (u.name ≡ name) ⊎ IsName name users

-- The account is one of the user's rows.
abbrev pub IsAccount : String → Account → List Account → Type 0
IsAccount name a [] = ⊥
IsAccount name a (b ∷ accounts) = ((b.user_name ≡ name) × (b ≡ a)) ⊎ IsAccount name a accounts

first_name-IsName :
    (test : UserConfig → Bool) (users : List UserConfig) (name : String)
    → first_name test users ≡ some name
    → IsName name users
unfolding first_name
first_name-IsName test [] name e = cc
first_name-IsName test (u ∷ users) name e =
    let ih = first_name-IsName test users name in
    elim (Bool-cases (test u)) [
      | inl holds ↦ inl (some-injective _ _ (rw holds at e))
      | inr fails ↦ inr (ih (rw fails at e))
    ]

or_name-IsName :
    (a b : Option String) (users : List UserConfig)
    → ((name : String) → a ≡ some name → IsName name users)
    → ((name : String) → b ≡ some name → IsName name users)
    → (name : String) → or_name a b ≡ some name
    → IsName name users
or_name-IsName none b users f g = g
or_name-IsName (some n) b users f g = f

canonical_name-IsName :
    (users : List UserConfig) (for_user name : String)
    → canonical_name users for_user ≡ some name
    → IsName name users
unfolding canonical_name
canonical_name-IsName users for_user name e = elim (Bool-cases (str_eq for_user "")) [
  | inl empty ↦ absurd (ground arith)
  | inr named ↦
      or_name-IsName _ _ users (first_name-IsName _ users)
        (or_name-IsName _ _ users (first_name-IsName _ users) (first_name-IsName _ users)) name
        (rw named at e)
]

prefer-IsAccount :
    (last : String → Option ℕ) (name : String) (b : Account) (best : Option Account)
    (accounts : List Account)
    → b.user_name ≡ name
    → ((a : Account) → best ≡ some a → IsAccount name a accounts)
    → (a : Account) → prefer last b best ≡ some a
    → IsAccount name a (b ∷ accounts)
prefer-IsAccount last name b none accounts o h a e = inl (o, some-injective _ _ e)
prefer-IsAccount last name b (some c) accounts o h a e = elim (Bool-cases (preferred last c b)) [
  | inl holds ↦ inr (h a (rw holds at e))
  | inr fails ↦ inl (o, some-injective _ _ (rw fails at e))
]

most_recent-IsAccount :
    (last : String → Option ℕ) (name : String) (accounts : List Account) (a : Account)
    → most_recent last name accounts ≡ some a
    → IsAccount name a accounts
unfolding most_recent
most_recent-IsAccount last name [] a e = cc
most_recent-IsAccount last name (b ∷ accounts) a e =
    let ih = most_recent-IsAccount last name accounts in
    elim (Bool-cases (str_eq b.user_name name)) [
      | inl own ↦
          prefer-IsAccount last name b (most_recent last name accounts) accounts
            ((eq_iff b.user_name name).0 own) ih a (rw own at e)
      | inr other ↦ inr (ih a (rw other at e))
    ]

-- Whom a reminder may be set for, and where it goes: to the chat that asked, or to the account, in no
-- group, of a configured user whom the parent named.
abbrev pub IsFor : Deps → Request → Reminder → Type 0
IsFor d q r =
    ((q.for_user ≡ "")
      × (r.user_name ≡ q.user.name)
      × (r.gateway ≡ q.gateway)
      × (r.external_id ≡ q.external_id)
      × (r.group_id ≡ q.group_id)
      × (r.is_group ≡ q.is_group))
    ⊎ ((q.user.role ≡ "parent")
        × IsName r.user_name d.users
        × (canonical_name d.users q.for_user ≡ some r.user_name)
        × ((accounts : List Account) × (d.accounts ≡ some accounts)
            × ((a : Account) × IsAccount r.user_name a accounts
                × (r.gateway ≡ a.gateway)
                × (chat_id r ≡ a.external_id)
                × (r.is_group ≡ false))))

-- A row that nobody has tried to deliver yet, with the message and the time that were asked for.
pub record IsAsked (q : Request) (due : ℕ) (r : Reminder) : Type 0 where
  pub message : r.message ≡ q.message
  pub due_at : r.due_at ≡ due / 1000000000
  pub state : r.delivery_state ≡ pending
  pub dispatched : r.dispatched ≡ false
  pub attempts : (r.delivery_attempts ≡ 0) × (r.terminal_attempts ≡ 0)
  pub setter_gateway : r.setter_gateway ≡ q.gateway
  pub setter_external_id : r.setter_external_id ≡ q.external_id

-- What has become of the table, by the outcome.
abbrev pub Added : Deps → Request → List Reminder → List Reminder × Outcome → Type 0
Added d q rows (rows', refused e) = rows' ≡ rows
Added d q rows (rows', scheduled answer) =
    (due : ℕ) × ((r : Reminder) × (parse_time d.calendar d.now q.asked_time ≡ some due)
      × (d.now < due)
      × IsAsked q due r
      × IsFor d q r
      × (answer.for_user ≡ r.user_name)
      × (rows' ≡ r ∷ rows))

Added-if :
    (d : Deps) (q : Request) (rows : List Reminder) (b : Bool) (x y : List Reminder × Outcome)
    → (b ≡ true → Added d q rows x)
    → (b ≡ false → Added d q rows y)
    → Added d q rows (if b then x else y)
Added-if d q rows true x y f g = f refl
Added-if d q rows false x y f g = g refl

module _ (d : Deps) (q : Request) (rows : List Reminder) (due : ℕ)
    (read : parse_time d.calendar d.now q.asked_time ≡ some due) (later : d.now < due) where
  create-Added :
      (t : Target) → IsFor d q (reminder_row d q due t) → Added d q rows (create d q due t rows)
  unfolding create
  create-Added t h =
      let asked : IsAsked q due (reminder_row d q due t) = record {
        message = refl;
        due_at = refl;
        state = refl;
        dispatched = refl;
        attempts = (refl, refl);
        setter_gateway = refl;
        setter_external_id = refl;
      } in
      Added-if d q rows d.insert_ok _ _
        (λ _. (due, (reminder_row d q due t, read, later, asked, h, refl, refl))) (λ _. refl)

  after_account-Added :
      (name : String) (best : Option Account) (accounts : List Account)
      → q.user.role ≡ "parent"
      → IsName name d.users
      → canonical_name d.users q.for_user ≡ some name
      → d.accounts ≡ some accounts
      → ((a : Account) → best ≡ some a → IsAccount name a accounts)
      → Added d q rows (after_account d q due name best rows)
  unfolding after_account chat_id
  after_account-Added name none accounts p n k e h = refl
  after_account-Added name (some a) accounts p n k e h =
      Added-if d q rows (str_eq a.gateway "" || str_eq a.external_id "") _ _ (λ _. refl)
        (λ _.
          create-Added (linked_target name a)
            (inr (p, n, k, (accounts, e, (a, h a refl, refl, refl, refl)))))

  after_query-Added :
      (name : String) (o : Option (List Account))
      → q.user.role ≡ "parent"
      → IsName name d.users
      → canonical_name d.users q.for_user ≡ some name
      → d.accounts ≡ o
      → Added d q rows (after_query d q due name o rows)
  unfolding after_query
  after_query-Added name none p n k e = refl
  after_query-Added name (some accounts) p n k e =
      after_account-Added name (most_recent (d.last_message name) name accounts) accounts p n k e
        (most_recent-IsAccount (d.last_message name) name accounts)

  after_name-Added :
      (o : Option String)
      → q.user.role ≡ "parent"
      → canonical_name d.users q.for_user ≡ o
      → ((name : String) → o ≡ some name → IsName name d.users)
      → Added d q rows (after_name d q due o rows)
  unfolding after_name
  after_name-Added none p k h = refl
  after_name-Added (some name) p k h = after_query-Added name d.accounts p (h name refl) k refl

  to_target-Added : Added d q rows (to_target d q due rows)
  unfolding to_target
  to_target-Added =
      Added-if d q rows (str_eq q.for_user "") _ _
        (λ own.
          create-Added (own_target q)
            (inl ((eq_iff q.for_user "").0 own, refl, refl, refl, refl, refl)))
        (λ other.
          Added-if d q rows (str_eq q.user.role "parent") _ _
            (λ parent.
              after_name-Added (canonical_name d.users q.for_user)
                ((eq_iff q.user.role "parent").0 parent) refl
                (canonical_name-IsName d.users q.for_user))
            (λ child. refl))

after_time-Added :
    (d : Deps) (q : Request) (rows : List Reminder) (o : Option ℕ)
    → parse_time d.calendar d.now q.asked_time ≡ o
    → Added d q rows (after_time d q o rows)
unfolding after_time
after_time-Added d q rows none e = refl
after_time-Added d q rows (some due) e =
    Added-if d q rows (leb due d.now) _ _ (λ past. refl)
      (λ later. to_target-Added d q rows due e (ground arith))

-- The handler of the tool either refuses and leaves the table as it is, or adds one row to it that is
-- pending, with the message, for a time that the text was read as and that is after now. If no other
-- user is named, the row is for the user in the chat that asks; or else the user is a parent, and the
-- row is for the configured user who is named and is delivered to an account linked to this user, not
-- to a group.
pub handle_add_reminder-Added :
    (d : Deps) (q : Request) (rows : List Reminder) → Added d q rows (handle_add_reminder d q rows)
unfolding handle_add_reminder
handle_add_reminder-Added d q rows =
    after_time-Added d q rows (parse_time d.calendar d.now q.asked_time) refl
