-- ===== src/Reminder/Scheduler/Select.antt =====
-- What a query of internal/store/db.go returns of one reminder.
use famclaw.Prelude.{
  ℕ, suc, ◌≤◌, ◌≡◌, refl, Bool, true, false, List, [], ◌∷◌, arith, ◌==◌, if◌then◌else◌, Bool-cases,
  inl, inr,
}
use famclaw.Reminder.Row.{Reminder, is_pending}
use famclaw.Reminder.Table.{update, select_where, insert_due}
use famclaw.Reminder.Scheduler.View.{waiting}

-- How many rows have the id; at most one, since it is the table's primary key.
unfoldable pub count_id : ℕ → List Reminder → ℕ
count_id i [] = 0
count_id i (r ∷ rows) = let rest = count_id i rows in if r.id == i then suc rest else rest

count_id-insert_due :
    (i : ℕ) (r : Reminder) (rows : List Reminder)
    → count_id i (insert_due r rows) ≡ count_id i (r ∷ rows)
unfolding count_id insert_due
count_id-insert_due i r [] = refl
count_id-insert_due i r (q ∷ rows) = ground (arith, count_id-insert_due i r rows)

pub count_id-select_where :
    (i : ℕ) (test : Reminder → Bool) (rows : List Reminder)
    → count_id i (select_where test rows) ≤ count_id i rows
unfolding count_id select_where
count_id-select_where i test [] = omega arith
count_id-select_where i test (r ∷ rows) =
    ground
      (arith, count_id-select_where i test rows, count_id-insert_due i r (select_where test rows))

-- A reminder that is not pending is not in the result of a query for pending ones.
pub count_id-not_waiting :
    (i : ℕ) (test : Reminder → Bool) (rows : List Reminder)
    → ((r : Reminder) → test r ≡ true → is_pending r.delivery_state ≡ true)
    → count_id i rows ≤ 1
    → waiting i rows ≡ false
    → count_id i (select_where test rows) ≡ 0
unfolding count_id select_where waiting
count_id-not_waiting i test [] only u w = refl
count_id-not_waiting i test (r ∷ rows) only u w = elim (Bool-cases (r.id == i)) [
  | inl here ↦ ground (
    arith,
    only r,
    count_id-select_where i test rows,
    count_id-insert_due i r (select_where test rows),
  )
  | inr there ↦ ground (
    arith,
    count_id-not_waiting i test rows only,
    count_id-insert_due i r (select_where test rows),
  )
]

pub count_id-update :
    (i j : ℕ) (change : Reminder → Reminder) (rows : List Reminder)
    → ((r : Reminder) → (change r).id ≡ r.id)
    → count_id i (update j change rows) ≡ count_id i rows
unfolding count_id update
count_id-update i j change [] id = refl
count_id-update i j change (r ∷ rows) id = ground (arith, id r, count_id-update i j change rows id)
