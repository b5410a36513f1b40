-- ===== src/Toolcache/Rows.antt =====
-- The tables tool_result_cache and tool_result_audit, with the queries of internal/toolcache/store.go. A
-- time is the number of its milliseconds.
use famclaw.Prelude.{
  ℕ, Bool, true, false, ◌&&◌, String, Option, none, some, List, [], ◌∷◌, ltb, leb, if◌then◌else◌,
}
use famclaw.Prelude.Text.{str_eq}

pub record CacheRow : Type 0 where
  pub id : String
  pub user_name : String
  pub conv_id : String
  pub tool_name : String
  pub args_hash : String
  pub payload_path : String
  pub bytes : ℕ
  pub content_type : String
  pub created_at : ℕ
  pub expires_at : ℕ
  pub accessed_at : ℕ

pub record AuditRow : Type 0 where
  pub id : String
  pub user_name : String
  pub conv_id : String
  pub tool_name : String
  pub args_hash : String
  pub args_summary : String
  pub bytes : ℕ
  pub content_type : String
  pub category : Option String
  pub created_at : ℕ
  pub payload_id : Option String
  pub payload_purged_at : Option ℕ

-- `WHERE id = ? AND user_name = ?`
unfoldable pub get_cache_by_id : (user id : String) → List CacheRow → Option CacheRow
get_cache_by_id user id [] = none
get_cache_by_id user id (r ∷ rows) =
    if str_eq r.id id && str_eq r.user_name user then some r else get_cache_by_id user id rows

abbrev pub is_match : (user tool args_hash : String) → ℕ → CacheRow → Bool
is_match user tool args_hash now r =
    str_eq r.user_name user
    && str_eq r.tool_name tool
    && str_eq r.args_hash args_hash
    && ltb now r.expires_at

-- The newer of two rows, the first if they are of the same time.
abbrev pub newer : CacheRow → Option CacheRow → Option CacheRow
newer r none = some r
newer r (some q) = if ltb r.created_at q.created_at then some q else some r

unfoldable pub find_dedup : (user tool args_hash : String) → ℕ → List CacheRow → Option CacheRow
find_dedup user tool args_hash now [] = none
find_dedup user tool args_hash now (r ∷ rows) =
    let rest = find_dedup user tool args_hash now rows in
    if is_match user tool args_hash now r then newer r rest else rest

unfoldable pub touch_accessed : String → ℕ → List CacheRow → List CacheRow
touch_accessed id now [] = []
touch_accessed id now (r ∷ rows) =
    (if str_eq r.id id then record r { accessed_at = now } else r) ∷ touch_accessed id now rows

unfoldable pub refresh_expiry : String → ℕ → List CacheRow → List CacheRow
refresh_expiry id expires_at [] = []
refresh_expiry id expires_at (r ∷ rows) =
    (if str_eq r.id id then record r { expires_at = expires_at } else r)
    ∷ refresh_expiry id expires_at rows

unfoldable pub delete_cache : String → List CacheRow → List CacheRow
delete_cache id [] = []
delete_cache id (r ∷ rows) =
    let rest = delete_cache id rows in if str_eq r.id id then rest else r ∷ rest

-- `WHERE expires_at < ?`
unfoldable pub list_expired : ℕ → List CacheRow → List CacheRow
list_expired now [] = []
list_expired now (r ∷ rows) =
    let rest = list_expired now rows in if ltb r.expires_at now then r ∷ rest else rest

-- A row at its place among rows in the order of their last access.
unfoldable pub insert_by_access : CacheRow → List CacheRow → List CacheRow
insert_by_access r [] = r ∷ []
insert_by_access r (q ∷ rows) =
    let rest = insert_by_access r rows in
    if leb r.accessed_at q.accessed_at then r ∷ q ∷ rows else q ∷ rest

-- `WHERE user_name = ? ORDER BY accessed_at ASC`
unfoldable pub list_by_user_order_by_accessed : String → List CacheRow → List CacheRow
unfolding insert_by_access
list_by_user_order_by_accessed user [] = []
list_by_user_order_by_accessed user (r ∷ rows) =
    let rest = list_by_user_order_by_accessed user rows in
    if str_eq r.user_name user then insert_by_access r rest else rest

unfoldable pub is_listed : String → List String → Bool
is_listed user [] = false
is_listed user (u ∷ users) = if str_eq u user then true else is_listed user users

-- SELECT DISTINCT user_name
unfoldable pub distinct_users : List CacheRow → List String
unfolding is_listed
distinct_users [] = []
distinct_users (r ∷ rows) =
    let rest = distinct_users rows in
    if is_listed r.user_name rest then rest else r.user_name ∷ rest

abbrev pub names_payload : String → Option String → Bool
names_payload id none = false
names_payload id (some p) = str_eq p id

unfoldable pub mark_audit_payload_purged : String → ℕ → List AuditRow → List AuditRow
mark_audit_payload_purged id now [] = []
mark_audit_payload_purged id now (a ∷ audits) =
    (if names_payload id a.payload_id
      then record a { payload_id = none; payload_purged_at = some now }
      else a)
    ∷ mark_audit_payload_purged id now audits
