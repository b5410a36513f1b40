-- ===== src/Toolcache/Sweep/Stays.antt =====
-- What the deletions of a sweep cannot undo.
use famclaw.Prelude.{ℕ, ◌-◌, ◌≤◌, inl, inr, String, List, [], ◌∷◌, leb, arith, All, Bool-cases}
use famclaw.Toolcache.Rows.{CacheRow, delete_cache}
use famclaw.Toolcache.Sweep.{
  CacheState, SweepCalls, purge, purge_all, evict, evict_user, evict_users,
}
use famclaw.Toolcache.Sweep.Totals.{
  total_of, Distinct, total_of-delete_cache, All-delete_cache, Distinct-delete_cache,
}

-- What no deletion of a row undoes.
pub record Stays (Q : List CacheRow → Type 0) : Type 0 where
  pub deleted : (id : String) (rows : List CacheRow) → Q rows → Q (delete_cache id rows)

module _ (c : SweepCalls) (now cap : ℕ) where
  module _ (Q : List CacheRow → Type 0) (stays : Stays Q) where
    purge-Stays : (r : CacheRow) (s : CacheState) → Q s.rows → Q (purge c now r s).rows
    unfolding purge
    purge-Stays r s h = elim (Bool-cases (c.row_deleted r.id)) [
      | inl e ↦ rw e (stays.deleted r.id s.rows h)
      | inr n ↦ rw n h
    ]

    pub purge_all-Stays :
        (l : List CacheRow) (s : CacheState) → Q s.rows → Q (purge_all c now l s).rows
    unfolding purge_all
    purge_all-Stays [] s h = h
    purge_all-Stays (r ∷ l) s h = purge_all-Stays l (purge c now r s) (purge-Stays r s h)

    evict-Stays :
        (total : ℕ) (l : List CacheRow) (s : CacheState)
        → Q s.rows
        → Q (evict c now cap total l s).rows
    unfolding evict
    evict-Stays total [] s h = h
    evict-Stays total (r ∷ l) s h = elim (Bool-cases (leb total cap)) [
      | inl e ↦ rw e h
      | inr n ↦ rw n (evict-Stays (total - r.bytes) l (purge c now r s) (purge-Stays r s h))
    ]

    pub evict_user-Stays :
        (user : String) (s : CacheState) → Q s.rows → Q (evict_user c now cap user s).rows
    unfolding evict_user
    evict_user-Stays user s h = elim (Bool-cases (c.user_listed user)) [
      | inl e ↦ rw e (evict-Stays _ _ s h)
      | inr n ↦ rw n h
    ]

    pub evict_users-Stays :
        (users : List String) (s : CacheState) → Q s.rows → Q (evict_users c now cap users s).rows
    unfolding evict_users
    evict_users-Stays [] s h = h
    evict_users-Stays (user ∷ users) s h =
        evict_users-Stays users (evict_user c now cap user s) (evict_user-Stays user s h)

pub Distinct-Stays : Stays Distinct
Distinct-Stays = record { deleted = Distinct-delete_cache }

pub All-Stays : (P : CacheRow → Type 0) → Stays (All P)
All-Stays P = record { deleted = All-delete_cache P }

-- The rows of the user are within the cap.
abbrev pub IsWithin : String → ℕ → List CacheRow → Type 0
IsWithin user cap rows = total_of user rows ≤ cap

pub IsWithin-Stays : (user : String) (cap : ℕ) → Stays (IsWithin user cap)
IsWithin-Stays user cap = record {
  deleted = λ id rows h. omega (arith, total_of-delete_cache user id rows);
}
