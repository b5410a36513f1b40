-- ===== src/Toolcache/Cache/Spilled.antt =====
-- A payload that was spilled is read back, by its user only.
use famclaw.Prelude.{
  ℕ, ◌≡◌, refl, ap, ◌∙◌, inl, inr, true, false, ◌&&◌, String, Option, none, some, List, [], ◌∷◌,
  ◌++◌, leb, ltb, length, take, drop, if◌then◌else◌, arith, Bool-cases, All,
}
use famclaw.Prelude.Text.{str_eq, eq_refl}
use famclaw.Toolcache.Rows.{CacheRow, get_cache_by_id, find_dedup}
use famclaw.Toolcache.Files.{File, payload_path, file_at, write_payload, read_payload}
use famclaw.Toolcache.Sweep.{CacheState}
use famclaw.Toolcache.Cache.{
  Config, build_head, PutInput, PutCalls, output, insert_audit, cache_row, audit_spilled, spill,
  put_fresh, put_hashed, put, MoreCalls, clamp_offset, clamp_length, more_of, more_row, more,
}

get-append :
    (user id : String) (r : CacheRow) (rows : List CacheRow)
    → All (λ q. str_eq q.id id ≡ false) rows
    → get_cache_by_id user id (rows ++ r ∷ [])
      ≡ (if str_eq r.id id && str_eq r.user_name user then some r else none)
unfolding get_cache_by_id
get-append user id r [] h = refl
get-append user id r (q ∷ rows) h = rw h.0 (get-append user id r rows h.1)

file_at-write_payload :
    (path : String) (payload : List ℕ) (files : List File)
    → file_at path (write_payload path payload files) ≡ some payload
unfolding file_at write_payload
file_at-write_payload path payload files = rw (eq_refl path) refl

audit_spilled-keeps :
    (c : PutCalls) (id hash : String) (now : ℕ) (i : PutInput) (o : Option String) (s : CacheState)
    → ((audit_spilled c id hash now i o s).rows ≡ s.rows)
      × ((audit_spilled c id hash now i o s).files ≡ s.files)
unfolding insert_audit
audit_spilled-keeps c id hash now i none s = (refl, refl)
audit_spilled-keeps c id hash now i (some audit) s = ground arith

-- The state behind a spill that succeeds.
abbrev spilled : PutCalls → Config → ℕ → PutInput → (id hash : String) → CacheState → CacheState
spilled c cfg now i id hash s = audit_spilled c id hash now i c.audit_id (record s {
  files = write_payload (payload_path i.user id) i.payload s.files;
  rows = s.rows ++ cache_row cfg id hash now i ∷ [];
})

spill_succeeds :
    (c : PutCalls) (cfg : Config) (now : ℕ) (i : PutInput) (id hash : String) (s : CacheState)
    → c.written ≡ true
    → c.row_inserted ≡ true
    → spill c cfg id hash now i s ≡ (
      spilled c cfg now i id hash s,
      some (output id (build_head i.payload i.head_budget) (length i.payload) false),
    )
unfolding spill
spill_succeeds c cfg now i id hash s w r = rw (spill, w) (rw r refl)

put_spills :
    (c : PutCalls) (cfg : Config) (now : ℕ) (i : PutInput) (id hash : String) (s : CacheState)
    → i.args_hash ≡ some hash
    → (if c.dedup_read then find_dedup i.user i.tool_name hash now s.rows else none) ≡ none
    → c.id ≡ some id
    → (ltb 0 i.head_budget && leb (length i.payload) i.head_budget) ≡ false
    → put c cfg now i s ≡ spill c cfg id hash now i s
unfolding put put_hashed put_fresh
put_spills c cfg now i id hash s a d g b =
    rw (put, a) (rw (put_hashed, d) (rw (put_fresh, g) (rw b refl)))

read_found :
    (path : String) (o n : ℕ) (files : List File) (payload : List ℕ)
    → file_at path files ≡ some payload
    → read_payload path o n files ≡ some (take n (drop o payload))
unfolding read_payload
read_found path o n files payload f = rw (read_payload, f) refl

module _ (m : MoreCalls) (now : ℕ) (user id : String) (offset n : ℕ) (s : CacheState) where
  more_found :
      (r : CacheRow) (payload : List ℕ)
      → m.read ≡ true
      → m.opened ≡ true
      → get_cache_by_id user id s.rows ≡ some r
      → file_at r.payload_path s.files ≡ some payload
      → let o = clamp_offset offset r.bytes in
        (more m now user id offset n s).1
        ≡ some (record {
          content = take (clamp_length n) (drop o payload);
          content_type = r.content_type;
          total_bytes = r.bytes;
          offset = o;
        })
  unfolding more more_row more_of
  more_found r payload h k g f =
      let o = clamp_offset offset r.bytes in
      let e = read_found r.payload_path o (clamp_length n) s.files payload f in
      rw (more, h) (rw g (rw k (rw (more_of, e) refl)))

  more_missing : get_cache_by_id user id s.rows ≡ none → (more m now user id offset n s).1 ≡ none
  unfolding more more_row
  more_missing g = elim (Bool-cases m.read) [
    | inl h ↦ rw (more, h) (rw g refl)
    | inr h ↦ rw (more, h) refl
  ]

-- A payload that is spilled, its arguments being new, its id too, and the calls of the file and of the
-- row successful, is read back by its user under the id that Put answers: at each offset up to its end
-- the number of bytes that is asked for (or 4096 for none, or 8192 for more than that), as far as the
-- payload goes. For every other user there is nothing under this id.
pub more-put :
    (c : PutCalls) (cfg : Config) (now : ℕ) (i : PutInput) (id hash : String) (s : CacheState)
    (m : MoreCalls) (later offset n : ℕ)
    → i.args_hash ≡ some hash
    → (if c.dedup_read then find_dedup i.user i.tool_name hash now s.rows else none) ≡ none
    → c.id ≡ some id
    → (ltb 0 i.head_budget && leb (length i.payload) i.head_budget) ≡ false
    → c.written ≡ true
    → c.row_inserted ≡ true
    → All (λ r. str_eq r.id id ≡ false) s.rows
    → m.read ≡ true
    → m.opened ≡ true
    → let s' = (put c cfg now i s).0 in
      let o = clamp_offset offset (length i.payload) in
      ((more m later i.user id offset n s').1
        ≡ some (record {
          content = take (clamp_length n) (drop o i.payload);
          content_type = i.content_type;
          total_bytes = length i.payload;
          offset = o;
        }))
      × ((other : String)
          → str_eq i.user other ≡ false
          → (more m later other id offset n s').1 ≡ none)
more-put c cfg now i id hash s m later offset n a d g b w r fresh k o =
    let e : (put c cfg now i s).0 ≡ spilled c cfg now i id hash s =
      ap (λ p. p.0)
        (put_spills c cfg now i id hash s a d g b ∙ spill_succeeds c cfg now i id hash s w r) in
    let kept = audit_spilled-keeps c id hash now i c.audit_id (record s {
      files = write_payload (payload_path i.user id) i.payload s.files;
      rows = s.rows ++ cache_row cfg id hash now i ∷ [];
    }) in
    let row = cache_row cfg id hash now i in
    let found : get_cache_by_id i.user id (spilled c cfg now i id hash s).rows ≡ some row =
      ap (λ rows. get_cache_by_id i.user id rows) kept.0
      ∙ get-append i.user id row s.rows fresh
      ∙ rw (eq_refl id, eq_refl i.user) refl in
    let there : file_at row.payload_path (spilled c cfg now i id hash s).files ≡ some i.payload =
      ap (λ files. file_at row.payload_path files) kept.1
      ∙ file_at-write_payload row.payload_path i.payload s.files in
    rw e (
      more_found m later i.user id offset n (spilled c cfg now i id hash s) row i.payload k o found
          there,
      λ other d. more_missing m later other id offset n (spilled c cfg now i id hash s) (
          ap (λ rows. get_cache_by_id other id rows) kept.0
          ∙ get-append other id row s.rows fresh
          ∙ rw (eq_refl id, d) refl),
    )
