-- ===== src/Gateway/Router/Lookups.antt =====
-- What holds of the entries of pendingRegs and of the users that are found among others.
use famclaw.Prelude.{
  ℕ, zero, suc, ◌+◌, ◌≡◌, ◌≢◌, ◌⊎◌, ◌&&◌, refl, ap, inl, inr, String, Option, none, some, List, [],
  ◌∷◌, ltb, Bool-cases, All,
}
use mathlib.Core.Path.{subst}
use famclaw.Prelude.Text.{str_eq, eq_iff}
use famclaw.Notify.Decimal.{Signed, nonneg, neg}
use famclaw.Gateway.Router.State.{UserConfig, PendingRegistration}
use famclaw.Store.Accounts.{GatewayAccount, has_gateway_account}
use famclaw.Gateway.Router.Registration.{
  delete_pending, clean_expired_pending, without_parents, find_by_name, five_minutes,
  has_display_name, find_pending, Identity, unlinked_users, nth_user, chosen_user,
}

abbrev pub IsChild : UserConfig → Type 0
IsChild u = u.role ≢ "parent"

pub All-delete_pending :
    (P : PendingRegistration → Type 0) (key : String) (regs : List PendingRegistration)
    → All P regs
    → All P (delete_pending key regs)
unfolding delete_pending
All-delete_pending P key [] h = tt
All-delete_pending P key (p ∷ regs) h = elim (Bool-cases (str_eq p.key key)) [
  | inl e ↦ rw e (All-delete_pending P key regs h.1)
  | inr n ↦ rw n (h.0, All-delete_pending P key regs h.1)
]

pub All-clean_expired_pending :
    (P : PendingRegistration → Type 0) (now : ℕ) (regs : List PendingRegistration)
    → All P regs
    → All P (clean_expired_pending now regs)
unfolding clean_expired_pending
All-clean_expired_pending P now [] h = tt
All-clean_expired_pending P now (p ∷ regs) h =
    elim (Bool-cases (ltb (p.asked_at + five_minutes) now)) [
      | inl e ↦ rw e (All-clean_expired_pending P now regs h.1)
      | inr n ↦ rw n (h.0, All-clean_expired_pending P now regs h.1)
    ]

pub find_pending-All :
    (P : PendingRegistration → Type 0) (key : String) (regs : List PendingRegistration)
    (p : PendingRegistration)
    → All P regs
    → find_pending key regs ≡ some p
    → P p
unfolding find_pending
find_pending-All P key [] p h e = cc
find_pending-All P key (q ∷ regs) p h e = elim (Bool-cases (str_eq q.key key)) [
  | inl s ↦ subst P (ap (λ o. elim o [ some r ↦ r | none ↦ q ]) (rw s at e)) h.0
  | inr n ↦ find_pending-All P key regs p h.1 (rw n at e)
]

-- One of these users.
abbrev pub IsIn : UserConfig → List UserConfig → Type 0
IsIn u [] = ⊥
IsIn u (v ∷ users) = (v ≡ u) ⊎ IsIn u users

-- A configured user who is no parent.
abbrev pub IsConfiguredChild : List UserConfig → UserConfig → Type 0
IsConfiguredChild users u = IsIn u users × IsChild u

IsIn-All :
    (Q : UserConfig → Type 0) (users : List UserConfig)
    → ((u : UserConfig) → IsIn u users → Q u)
    → All Q users
IsIn-All Q [] h = tt
IsIn-All Q (u ∷ users) h = (h u (inl refl), IsIn-All Q users (λ v i. h v (inr i)))

unlinked_users-All :
    (Q : UserConfig → Type 0) (i : Identity) (gateway : List ℕ) (accounts : List GatewayAccount)
    (users : List UserConfig)
    → All Q users
    → All Q (unlinked_users i gateway accounts users)
unfolding unlinked_users
unlinked_users-All Q i gateway accounts [] h = tt
unlinked_users-All Q i gateway accounts (u ∷ users) h =
    let ih = unlinked_users-All Q i gateway accounts users h.1 in
    elim (Bool-cases (i.counted u.name && has_gateway_account u.name gateway accounts)) [
      | inl linked ↦ rw linked ih
      | inr free ↦ rw free (h.0, ih)
    ]

without_parents-All :
    (Q : UserConfig → Type 0) (users : List UserConfig)
    → All Q users
    → All (λ u. Q u × IsChild u) (without_parents users)
unfolding without_parents
without_parents-All Q [] h = tt
without_parents-All Q (u ∷ users) h =
    let ih = without_parents-All Q users h.1 in
    elim (Bool-cases (str_eq u.role "parent")) [
      | inl e ↦ rw e ih
      | inr n ↦ rw n ((h.0, λ r. let t = (eq_iff u.role "parent").1 r in cc), ih)
    ]

-- Whom the registration offers.
pub offered-IsConfiguredChild :
    (i : Identity) (gateway : List ℕ) (accounts : List GatewayAccount) (users : List UserConfig)
    → All (IsConfiguredChild users) (without_parents (unlinked_users i gateway accounts users))
offered-IsConfiguredChild i gateway accounts users =
    without_parents-All (λ u. IsIn u users) (unlinked_users i gateway accounts users)
      (unlinked_users-All (λ u. IsIn u users) i gateway accounts users
        (IsIn-All (λ u. IsIn u users) users (λ u i. i)))

pub find_by_name-All :
    (P : UserConfig → Type 0) (name : String) (users : List UserConfig) (u : UserConfig)
    → All P users
    → find_by_name name users ≡ some u
    → P u
unfolding find_by_name
find_by_name-All P name [] u h e = cc
find_by_name-All P name (v ∷ users) u h e = elim (Bool-cases (has_display_name name v)) [
  | inl s ↦ subst P (ap (λ o. elim o [ some r ↦ r | none ↦ v ]) (rw s at e)) h.0
  | inr n ↦ find_by_name-All P name users u h.1 (rw n at e)
]

nth_user-All :
    (P : UserConfig → Type 0) (n : ℕ) (users : List UserConfig) (u : UserConfig)
    → All P users
    → nth_user n users ≡ some u
    → P u
nth_user-All P n [] u h e = cc
nth_user-All P zero (v ∷ users) u h e = subst P (ap (λ o. elim o [ some r ↦ r | none ↦ v ]) e) h.0
nth_user-All P (suc n) (v ∷ users) u h e = nth_user-All P n users u h.1 e

pub chosen_user-All :
    (P : UserConfig → Type 0) (choice : Option Signed) (users : List UserConfig) (u : UserConfig)
    → All P users
    → chosen_user choice users ≡ some u
    → P u
unfolding chosen_user
chosen_user-All P none users u h e = cc
chosen_user-All P (some (neg n)) users u h e = cc
chosen_user-All P (some (nonneg zero)) users u h e = cc
chosen_user-All P (some (nonneg (suc n))) users u h e = nth_user-All P n users u h e
