-- ===== src/Scenarios/Caching.antt =====
-- The cache of tool results: a payload that is spilled, a sweep, a head, and two ids.
use famclaw.Prelude.{
  ◌⊎◌, ℕ, ◌≤◌, ◌≡◌, refl, true, false, String, none, some, List, [], ◌∷◌, length, take, drop, arith,
  All,
}
use famclaw.Prelude.Text.{str_eq, codes}
use famclaw.Toolcache.Rows.{
  CacheRow, list_expired, delete_cache, list_by_user_order_by_accessed, insert_by_access,
  distinct_users, is_listed, mark_audit_payload_purged,
}
use famclaw.Toolcache.Sweep.{
  CacheState, SweepCalls, sweep, purge_all, purge, evict_pass, evict_users, evict_user, evict,
  sum_bytes,
}
use famclaw.Toolcache.Sweep.Totals.{total_of}
use famclaw.Toolcache.Sweep.Capped.{IsLive, sweep-IsWithin}
use famclaw.Toolcache.Cache.{
  Config, PutInput, PutCalls, put, MoreCalls, more, clamp_offset, clamp_length, build_head,
}
use famclaw.Toolcache.Cache.Head.{IsHead, build_head-IsHead}
use famclaw.Toolcache.Cache.Spilled.{more-put}
use famclaw.Toolcache.Ids.{IdGenerator, new_id_generator, generate, id_of, increment}
use famclaw.Toolcache.Ids.Digits.{sorts_before}
use famclaw.Toolcache.Ids.Order.{generate-sorts_before}

abbrev row : String → String → ℕ → ℕ → ℕ → CacheRow
row id user bytes expires accessed = record {
  id = id;
  user_name = user;
  conv_id = "c1";
  tool_name = "builtin__web_fetch";
  args_hash = id;
  payload_path = id;
  bytes = bytes;
  content_type = "text/plain";
  created_at = 0;
  expires_at = expires;
  accessed_at = accessed;
}

-- One row has expired, and of Tim's other rows the one used least recently has to go.
abbrev full : CacheState
full = record {
  rows =
      row "a" "tim" 50 100 5
      ∷ row "b" "tim" 60 900 9
      ∷ row "c" "mia" 90 900 3
      ∷ row "d" "tim" 70 900 4
      ∷ [];
  audits = [];
  files = [];
}

abbrev all_work : SweepCalls
all_work = record {
  expired_listed = true;
  users_listed = true;
  user_listed = λ user. true;
  file_deleted = λ id. true;
  row_deleted = λ id. true;
  audit_marked = λ id. true;
}

swept : (sweep all_work 500 100 full).0.rows ≡ row "b" "tim" 60 900 9 ∷ row "c" "mia" 90 900 3 ∷ []
unfolding sweep purge_all purge evict_pass evict_users evict_user evict sum_bytes list_expired
    delete_cache list_by_user_order_by_accessed insert_by_access distinct_users is_listed
    mark_audit_payload_purged
swept = refl

sweep-IsWithin_example :
    let rows = (sweep all_work 500 100 full).0.rows in
    let cap : ℕ = 100 in All (IsLive 500) rows × ((cap ≡ 0) ⊎ (total_of "tim" rows ≤ cap))
sweep-IsWithin_example =
    sweep-IsWithin all_work 500 100 (λ id. refl) "tim" full refl refl (λ user. refl)
      ((refl, (refl, (refl, tt))), ((refl, (refl, tt)), ((refl, tt), (tt, tt))))

abbrev article : PutInput
article = record {
  user = "tim";
  user_role = "age_8_12";
  conv_id = "c1";
  tool_name = "builtin__web_fetch";
  args_hash = some "h1";
  args_summary = "url=https://example.org";
  payload = codes "One. Two. Three";
  content_type = "text/plain";
  category = none;
  head_budget = 8;
}

head_of_article : build_head (codes "One. Two. Three") 8 ≡ (codes "One.", true)
unfolding build_head
head_of_article = refl

build_head-IsHead_example :
    IsHead
      (codes "One. Two. Three")
      8
      (build_head (codes "One. Two. Three") 8).0
      (build_head (codes "One. Two. Three") 8).1
build_head-IsHead_example = build_head-IsHead (codes "One. Two. Three") 8

abbrev calls : PutCalls
calls = record {
  dedup_read = false;
  touched = true;
  refreshed = true;
  opened = true;
  deleted = true;
  id = some "01A";
  audit_id = some "01B";
  written = true;
  left = none;
  row_inserted = true;
  file_deleted = true;
  audit_inserted = true;
}

abbrev config : Config
config = record { ttl_default = 21600000; ttl_by_role = λ role. none }

abbrev reading : MoreCalls
reading = record { read = true; opened = true; deleted = true; touched = true }

more-put_example :
    let s = (put calls config 10 article full).0 in
    let o = clamp_offset 5 (length (codes "One. Two. Three")) in
    ((more reading 20 "tim" "01A" 5 4 s).1
      ≡ some (record {
        content = take (clamp_length 4) (drop o (codes "One. Two. Three"));
        content_type = "text/plain";
        total_bytes = length (codes "One. Two. Three");
        offset = o;
      }))
    × ((other : String) → str_eq "tim" other ≡ false → (more reading 20 other "01A" 5 4 s).1 ≡ none)
more-put_example =
    more-put calls config 10 article "01A" "h1" full reading 20 5 4 refl refl refl refl refl refl
      (refl, (refl, (refl, (refl, tt)))) refl refl

abbrev random : List ℕ
random = 1 ∷ 2 ∷ 3 ∷ 4 ∷ 5 ∷ 6 ∷ 7 ∷ 8 ∷ 9 ∷ 255 ∷ []

abbrev after_first : IdGenerator
after_first = (generate 1700000000000 (some random) new_id_generator).0

first_made :
    (generate 1700000000000 (some random) new_id_generator).1 ≡ some (id_of 1700000000000 random)
unfolding generate
first_made = refl

abbrev counted : List ℕ
counted = 1 ∷ 2 ∷ 3 ∷ 4 ∷ 5 ∷ 6 ∷ 7 ∷ 8 ∷ 10 ∷ 0 ∷ []

second_made : (generate 1700000000000 none after_first).1 ≡ some (id_of 1700000000000 counted)
unfolding generate increment
second_made = refl

no_overflow : (increment after_first.last_rand).1 ≡ false
unfolding generate increment
no_overflow = refl

generate-sorts_before_example :
    sorts_before (id_of 1700000000000 random) (id_of 1700000000000 counted) ≡ true
generate-sorts_before_example =
    generate-sorts_before 1700000000000 1700000000000 (some random) none new_id_generator
      (id_of 1700000000000 random) (id_of 1700000000000 counted) (omega arith, refl)
      (omega arith, refl) tt (omega arith) (omega arith) first_made no_overflow second_made
