-- ===== src/Reminder/Scheduler/Apart.antt =====
-- What is done to one reminder leaves the rows of the others as they are, and every id in its place.
use famclaw.Prelude.{ℕ, ◌≡◌, ◌≢◌, refl, ◌∙◌, ap, List, [], ◌∷◌, arith}
use famclaw.Reminder.Row.{Reminder}
use famclaw.Reminder.State.{Env, Scheduler}
use famclaw.Reminder.Table.{update, exec, set_delivered}
use famclaw.Reminder.Scheduler.{dispatch}
use famclaw.Reminder.Scheduler.Closure.{Closed}
use famclaw.Reminder.Scheduler.Calm.{Statement-id, set_delivered-IsMild}
use famclaw.Reminder.Scheduler.View.{waiting}
use famclaw.Reminder.Scheduler.Select.{count_id, count_id-update}

waiting-update_ne :
    (i j : ℕ) (change : Reminder → Reminder) (rows : List Reminder)
    → ((r : Reminder) → (change r).id ≡ r.id)
    → j ≢ i
    → waiting i (update j change rows) ≡ waiting i rows
unfolding waiting update
waiting-update_ne i j change [] id n = refl
waiting-update_ne i j change (r ∷ rows) id n =
    ground (arith, id r, waiting-update_ne i j change rows id n)

pub record Apart (i : ℕ) (s t : Scheduler) : Type 0 where
  pub waits : waiting i t.rows ≡ waiting i s.rows

pub Apart-Closed : (i : ℕ) (e : Env) (j : ℕ) → j ≢ i → Closed e (Apart i) j
Apart-Closed i e j n = record {
  refl = λ s. record { waits = refl };
  trans = λ s t u h k. record { waits = k.waits ∙ h.waits };
  same = λ s t q p f d. record { waits = ap (waiting i) q };
  abandons = λ s. record { waits = refl };
  marks_dead = λ s k. record { waits = refl };
  delivers = λ s now h. record {
    waits =
        unfold exec in
        ground
          (arith, waiting-update_ne i j (set_delivered now) s.rows (set_delivered-IsMild now).id n);
  };
  writes = λ {change} s h. record {
    waits = unfold exec in ground (arith, waiting-update_ne i j change s.rows (Statement-id h) n);
  };
}

-- The table keeps its ids.
pub record SameIds (i : ℕ) (s t : Scheduler) : Type 0 where
  pub ids : count_id i t.rows ≡ count_id i s.rows

pub SameIds-Closed : (i : ℕ) (e : Env) (j : ℕ) → Closed e (SameIds i) j
SameIds-Closed i e j = record {
  refl = λ s. record { ids = refl };
  trans = λ s t u h k. record { ids = k.ids ∙ h.ids };
  same = λ s t q p f d. record { ids = ap (count_id i) q };
  abandons = λ s. record { ids = refl };
  marks_dead = λ s k. record { ids = refl };
  delivers = λ s now h. record {
    ids =
        unfold exec in
        ground
          (arith, count_id-update i j (set_delivered now) s.rows (set_delivered-IsMild now).id);
  };
  writes = λ {change} s h. record {
    ids = unfold exec in ground (arith, count_id-update i j change s.rows (Statement-id h));
  };
}

pub dispatch-SameIds :
    (i : ℕ) (e : Env) (r : Reminder) (s : Scheduler) → SameIds i s (dispatch e r s).0
unfolding dispatch
dispatch-SameIds i e r s = record { ids = ground arith }
