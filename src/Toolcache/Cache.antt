-- ===== src/Toolcache/Cache.antt =====
-- `Put`, `More` and their helpers (internal/toolcache/cache.go). The bytes of a payload are numbers; an
-- offset or a length that is negative, which the code treats like 0, is 0.
pub mod Head
pub mod Spilled
use famclaw.Prelude.{
  ℕ, zero, suc, ◌+◌, ◌-◌, Bool, true, false, not, ◌&&◌, ◌||◌, String, Option, none, some, List, [],
  ◌∷◌, ◌++◌, ◌==◌, leb, ltb, length, take, drop, if◌then◌else◌,
}
use famclaw.Prelude.Text.{str_eq}
use famclaw.Toolcache.Rows.{
  CacheRow, AuditRow, get_cache_by_id, find_dedup, touch_accessed, refresh_expiry, delete_cache,
}
use famclaw.Toolcache.Files.{File, payload_path, delete_payload, write_payload, read_payload}
use famclaw.Toolcache.Sweep.{CacheState}

-- The settings, times in milliseconds.
pub record Config : Type 0 where
  pub ttl_default : ℕ
  pub ttl_by_role : String → Option ℕ

unfoldable pub ttl_for : Config → String → ℕ
ttl_for cfg role =
    if str_eq role ""
    then cfg.ttl_default
    else elim (cfg.ttl_by_role role) [ some d ↦ d | none ↦ cfg.ttl_default ]

abbrev pub ends_sentence : ℕ → Bool
ends_sentence c = c == b'.' || c == b'!' || c == b'?' || c == 10

-- The last end of a sentence among the bytes from the position `lookback` on, as the number of bytes
-- up to it; `i` is the position of the first byte of the list.
unfoldable pub sentence_end : (lookback i : ℕ) → List ℕ → Option ℕ
sentence_end lookback i [] = none
sentence_end lookback i (c ∷ rest) =
    let later = sentence_end lookback (suc i) rest in
    elim later [
      | some n ↦ some n
      | none ↦ if ends_sentence c && leb lookback i then some (suc i) else none
    ]

unfoldable pub build_head : List ℕ → ℕ → List ℕ × Bool
unfolding sentence_end
build_head payload budget =
    if budget == 0 || leb (length payload) budget
    then (payload, ltb budget (length payload))
    else elim (sentence_end (budget - 200) 0 (take budget payload)) [
      | some n ↦ (take n payload, true)
      | none ↦ (take budget payload, true)
    ]

pub record PutInput : Type 0 where
  pub user : String
  pub user_role : String
  pub conv_id : String
  pub tool_name : String
  -- the hash of the arguments, `none` for an error, and their summary
  pub args_hash : Option String
  pub args_summary : String
  pub payload : List ℕ
  pub content_type : String
  pub category : Option String
  pub head_budget : ℕ

-- What the calls of one Put answer, and which succeed.
pub record PutCalls : Type 0 where
  pub dedup_read : Bool
  pub touched : Bool
  pub refreshed : Bool
  pub opened : Bool
  pub deleted : Bool
  pub id : Option String
  pub audit_id : Option String
  pub written : Bool
  -- the bytes that a failed write leaves in the file, `none` if it was not opened
  pub left : Option (List ℕ)
  pub row_inserted : Bool
  pub file_deleted : Bool
  pub audit_inserted : Bool

pub record PutOutput : Type 0 where
  pub id : String
  pub head : List ℕ
  pub truncated : Bool
  pub total_bytes : ℕ
  pub deduped : Bool

abbrev pub output : String → List ℕ × Bool → ℕ → Bool → PutOutput
output id (head, truncated) total deduped = record {
  id = id;
  head = head;
  truncated = truncated;
  total_bytes = total;
  deduped = deduped;
}

abbrev pub audit_row : (id hash : String) → Option String → ℕ → PutInput → AuditRow
audit_row id hash payload_id now i = record {
  id = id;
  user_name = i.user;
  conv_id = i.conv_id;
  tool_name = i.tool_name;
  args_hash = hash;
  args_summary = i.args_summary;
  bytes = length i.payload;
  content_type = i.content_type;
  category = i.category;
  created_at = now;
  payload_id = payload_id;
  payload_purged_at = none;
}

-- insertAudit, whose error is only logged.
unfoldable pub insert_audit : PutCalls → AuditRow → CacheState → CacheState
insert_audit c a s = if c.audit_inserted then record s { audits = s.audits ++ a ∷ [] } else s

abbrev pub cache_row : Config → (id hash : String) → ℕ → PutInput → CacheRow
cache_row cfg id hash now i = record {
  id = id;
  user_name = i.user;
  conv_id = i.conv_id;
  tool_name = i.tool_name;
  args_hash = hash;
  payload_path = payload_path i.user id;
  bytes = length i.payload;
  content_type = i.content_type;
  created_at = now;
  expires_at = now + ttl_for cfg i.user_role;
  accessed_at = now;
}

abbrev pub audit_spilled :
    PutCalls → (id hash : String) → ℕ → PutInput → Option String → CacheState → CacheState
audit_spilled c id hash now i none s = s
audit_spilled c id hash now i (some audit) s =
    insert_audit c (audit_row audit hash (some id) now i) s

unfoldable pub left_behind : String → Option (List ℕ) → List File → List File
left_behind path none files = files
left_behind path (some bytes) files = write_payload path bytes files

-- The spillover path: the file, then the row, then the audit.
unfoldable pub spill :
    PutCalls
    → Config
    → (id hash : String) → ℕ
    → PutInput
    → CacheState
    → CacheState × Option PutOutput
unfolding insert_audit build_head left_behind
spill c cfg id hash now i s =
    let path = payload_path i.user id in
    let s1 = record s { files = write_payload path i.payload s.files } in
    if not c.written
    then (record s { files = left_behind path c.left s.files }, none)
    else if not c.row_inserted
    then (if c.file_deleted then record s { files = delete_payload path s1.files } else s1, none)
    else (
      audit_spilled c id hash now i c.audit_id
          (record s1 { rows = s.rows ++ cache_row cfg id hash now i ∷ [] }),
      some (output id (build_head i.payload i.head_budget) (length i.payload) false),
    )

-- What comes after the deduplication: inline, or the spillover.
unfoldable pub put_fresh :
    PutCalls
    → Config
    → String
    → ℕ
    → PutInput
    → Option String
    → CacheState
    → CacheState × Option PutOutput
unfolding spill
put_fresh c cfg hash now i none s = (s, none)
put_fresh c cfg hash now i (some id) s =
    if ltb 0 i.head_budget && leb (length i.payload) i.head_budget
    then (
      insert_audit c (audit_row id hash none now i) s,
      some (output id (i.payload, false) (length i.payload) false),
    )
    else spill c cfg id hash now i s

abbrev pub refreshed_rows :
    PutCalls → Config → ℕ → PutInput → CacheRow → List CacheRow → List CacheRow
refreshed_rows c cfg now i existing rows =
    let touched = if c.touched then touch_accessed existing.id now rows else rows in
    if c.refreshed
    then refresh_expiry existing.id (now + ttl_for cfg i.user_role) touched
    else touched

-- A row that was found for the same arguments, with its payload, or without.
unfoldable pub put_found :
    PutCalls
    → Config
    → String
    → ℕ
    → PutInput
    → CacheRow
    → Option (List ℕ)
    → CacheState
    → CacheState × Option PutOutput
unfolding put_fresh build_head
put_found c cfg hash now i existing none s =
    put_fresh c cfg hash now i c.id
      (if c.deleted then record s { rows = delete_cache existing.id s.rows } else s)
put_found c cfg hash now i existing (some full) s =
    (s, some (output existing.id (build_head full i.head_budget) existing.bytes true))

unfoldable pub put_hashed :
    PutCalls
    → Config
    → String
    → ℕ
    → PutInput
    → Option CacheRow
    → CacheState
    → CacheState × Option PutOutput
unfolding put_found read_payload
put_hashed c cfg hash now i none s = put_fresh c cfg hash now i c.id s
put_hashed c cfg hash now i (some existing) s =
    put_found c cfg hash now i existing
      (if c.opened then read_payload existing.payload_path 0 existing.bytes s.files else none)
      (record s { rows = refreshed_rows c cfg now i existing s.rows })

unfoldable pub put : PutCalls → Config → ℕ → PutInput → CacheState → CacheState × Option PutOutput
unfolding put_hashed find_dedup
put c cfg now i s = elim i.args_hash [
  | none ↦ (s, none)
  | some hash ↦
      put_hashed c cfg hash now i
        (if c.dedup_read then find_dedup i.user i.tool_name hash now s.rows else none) s
]

pub record MoreCalls : Type 0 where
  pub read : Bool
  pub opened : Bool
  pub deleted : Bool
  pub touched : Bool

pub record MoreOutput : Type 0 where
  pub content : List ℕ
  pub content_type : String
  pub total_bytes : ℕ
  pub offset : ℕ

abbrev pub clamp_offset : (offset bytes : ℕ) → ℕ
clamp_offset offset bytes = if ltb bytes offset then bytes else offset

abbrev pub clamp_length : ℕ → ℕ
clamp_length n = if n == 0 then 4096 else if ltb 8192 n then 8192 else n

-- `More` with the row, and what was read of its file.
unfoldable pub more_of :
    MoreCalls
    → ℕ
    → String
    → (offset : ℕ) → CacheRow
    → Option (List ℕ)
    → CacheState
    → CacheState × Option MoreOutput
more_of c now id offset r none s =
    (if c.deleted then record s { rows = delete_cache id s.rows } else s, none)
more_of c now id offset r (some read) s = (
  if c.touched then record s { rows = touch_accessed id now s.rows } else s,
  some (record {
    content = read;
    content_type = r.content_type;
    total_bytes = r.bytes;
    offset = offset;
  }),
)

unfoldable pub more_row :
    MoreCalls
    → ℕ
    → String
    → (offset length : ℕ) → Option CacheRow
    → CacheState
    → CacheState × Option MoreOutput
unfolding more_of read_payload
more_row c now id offset n none s = (s, none)
more_row c now id offset n (some r) s =
    let o = clamp_offset offset r.bytes in
    more_of c now id o r
      (if c.opened then read_payload r.payload_path o (clamp_length n) s.files else none) s

-- `none` for every error, that of a row of another user like that of a row that is not there.
unfoldable pub more :
    MoreCalls
    → ℕ
    → (user id : String) → (offset length : ℕ) → CacheState
    → CacheState × Option MoreOutput
unfolding more_row get_cache_by_id
more c now user id offset n s =
    more_row c now id offset n (if c.read then get_cache_by_id user id s.rows else none) s
