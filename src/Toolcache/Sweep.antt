-- ===== src/Toolcache/Sweep.antt =====
-- `Sweep`: the expired rows go, and then, for each user, the rows that were used least recently, until
-- what is left is within the cap.
pub mod Totals
pub mod Stays
pub mod Capped
use famclaw.Prelude.{
  ℕ, ◌+◌, ◌-◌, Bool, true, false, not, String, Option, none, some, List, [], ◌∷◌, leb, ltb,
  if◌then◌else◌,
}
use famclaw.Toolcache.Rows.{
  CacheRow, AuditRow, delete_cache, list_expired, list_by_user_order_by_accessed, distinct_users,
  mark_audit_payload_purged,
}
use famclaw.Toolcache.Files.{File, delete_payload}

pub record CacheState : Type 0 where
  pub rows : List CacheRow
  pub audits : List AuditRow
  pub files : List File

-- Which of the calls succeed; the calls of a row by its id, the list of a user by his name.
pub record SweepCalls : Type 0 where
  pub expired_listed : Bool
  pub users_listed : Bool
  pub user_listed : String → Bool
  pub file_deleted : String → Bool
  pub row_deleted : String → Bool
  pub audit_marked : String → Bool

-- The three calls for a row that goes; their errors are ignored.
unfoldable pub purge : SweepCalls → ℕ → CacheRow → CacheState → CacheState
purge c now r s = record {
  rows = if c.row_deleted r.id then delete_cache r.id s.rows else s.rows;
  audits = if c.audit_marked r.id then mark_audit_payload_purged r.id now s.audits else s.audits;
  files = if c.file_deleted r.id then delete_payload r.payload_path s.files else s.files;
}

unfoldable pub purge_all : SweepCalls → ℕ → List CacheRow → CacheState → CacheState
unfolding purge
purge_all c now [] s = s
purge_all c now (r ∷ expired) s = purge_all c now expired (purge c now r s)

unfoldable pub sum_bytes : List CacheRow → ℕ
sum_bytes [] = 0
sum_bytes (r ∷ rows) = r.bytes + sum_bytes rows

-- The loop over the rows of one user.
unfoldable pub evict : SweepCalls → (now cap total : ℕ) → List CacheRow → CacheState → CacheState
unfolding purge
evict c now cap total [] s = s
evict c now cap total (r ∷ rows) s =
    let rest = evict c now cap (total - r.bytes) rows (purge c now r s) in
    if leb total cap then s else rest

unfoldable pub evict_user : SweepCalls → (now cap : ℕ) → String → CacheState → CacheState
unfolding evict sum_bytes
evict_user c now cap user s =
    let rows = list_by_user_order_by_accessed user s.rows in
    if c.user_listed user then evict c now cap (sum_bytes rows) rows s else s

unfoldable pub evict_users : SweepCalls → (now cap : ℕ) → List String → CacheState → CacheState
unfolding evict_user
evict_users c now cap [] s = s
evict_users c now cap (user ∷ users) s = evict_users c now cap users (evict_user c now cap user s)

-- The second pass, which is made if there is a cap.
unfoldable pub evict_pass : SweepCalls → (now cap : ℕ) → CacheState → CacheState
unfolding evict_users
evict_pass c now cap s =
    if ltb 0 cap
    then (if c.users_listed then evict_users c now cap (distinct_users s.rows) s else s)
    else s

-- Whether it ends without an error.
unfoldable pub sweep : SweepCalls → (now cap : ℕ) → CacheState → CacheState × Bool
unfolding purge_all evict_pass
sweep c now cap s =
    if c.expired_listed
    then (evict_pass c now cap (purge_all c now (list_expired now s.rows) s), true)
    else (s, false)
