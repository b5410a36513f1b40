-- ===== src/Reminder/Scheduler/View.antt =====
-- What the table and the scheduler hold of one reminder, and what a statement does to it.
use famclaw.Prelude.{
  ℕ, suc, ◌≤◌, ◌≡◌, refl, Bool, true, false, not, ◌||◌, List, [], ◌∷◌, length, arith, ◌==◌,
  if◌then◌else◌,
}
use famclaw.Reminder.Row.{Reminder, is_pending, is_delivered}
use famclaw.Reminder.State.{Delivery, sent, chat_gone, failed, Send, Scheduler, mem}
use famclaw.Reminder.Table.{update}

-- The reminder is in the table, in the state `pending`.
unfoldable pub waiting : ℕ → List Reminder → Bool
waiting i [] = false
waiting i (r ∷ rows) = if r.id == i then is_pending r.delivery_state else waiting i rows

unfoldable pub attempts_of : ℕ → List Reminder → ℕ
attempts_of i [] = 0
attempts_of i (r ∷ rows) = if r.id == i then r.delivery_attempts else attempts_of i rows

-- The outcomes of the calls of `Sender.Send` for the reminder, newest first.
unfoldable pub outcomes_of : ℕ → List Send → List Delivery
outcomes_of i [] = []
outcomes_of i (a ∷ sends) =
    let rest = outcomes_of i sends in if a.reminder == i then a.outcome ∷ rest else rest

abbrev pub sends_of : ℕ → Scheduler → ℕ
sends_of i s = length (outcomes_of i s.sends)

-- The calls that succeeded.
unfoldable pub count_sent : List Delivery → ℕ
count_sent [] = 0
count_sent (sent ∷ l) = suc (count_sent l)
count_sent (chat_gone ∷ l) = count_sent l
count_sent (failed ∷ l) = count_sent l

abbrev pub successes : ℕ → Scheduler → ℕ
successes i s = count_sent (outcomes_of i s.sends)

-- The reminder is in the table, in the state `delivered`.
unfoldable pub is_delivered_row : ℕ → List Reminder → Bool
is_delivered_row i [] = false
is_delivered_row i (r ∷ rows) =
    if r.id == i then is_delivered r.delivery_state else is_delivered_row i rows

-- The scheduler makes no more attempts at the reminder.
unfoldable pub settled : ℕ → Scheduler → Bool
settled i s = mem i s.failed_reminders || not (waiting i s.rows)

pub record IsMild (change : Reminder → Reminder) : Type 0 where
  pub id : (r : Reminder) → (change r).id ≡ r.id
  pub attempts : (r : Reminder) → r.delivery_attempts ≤ (change r).delivery_attempts
  pub waits :
      (r : Reminder)
      → is_pending (change r).delivery_state ≡ true
      → is_pending r.delivery_state ≡ true

module _ (j : ℕ) {change : Reminder → Reminder} (h : IsMild change) where
  pub attempts_of-update :
      (i : ℕ) (rows : List Reminder) → attempts_of i rows ≤ attempts_of i (update j change rows)
  unfolding attempts_of update
  attempts_of-update i [] = omega arith
  attempts_of-update i (r ∷ rows) = ground (arith, h.id r, h.attempts r, attempts_of-update i rows)

  pub waiting-update :
      (i : ℕ) (rows : List Reminder)
      → waiting i (update j change rows) ≡ true
      → waiting i rows ≡ true
  unfolding waiting update
  waiting-update i [] w = w
  waiting-update i (r ∷ rows) w = ground (arith, h.id r, h.waits r, waiting-update i rows)

-- A change that takes rows out of the state `pending` does so to the row that it is for.
pub waiting-update_self :
    (i : ℕ) (change : Reminder → Reminder) (rows : List Reminder)
    → ((r : Reminder) → is_pending (change r).delivery_state ≡ false)
    → ((r : Reminder) → (change r).id ≡ r.id)
    → waiting i (update i change rows) ≡ false
unfolding waiting update
waiting-update_self i change [] leaves id = refl
waiting-update_self i change (r ∷ rows) leaves id =
    ground (arith, leaves r, id r, waiting-update_self i change rows leaves id)
