-- ===== src/Store/Tokens.antt =====
-- The table used_tokens of the links that were used.
use famclaw.Prelude.{
  ℕ, suc, ◌-◌, Bool, true, false, not, String, Option, none, some, List, [], ◌∷◌, ◌++◌, ◌==◌, ltb,
  if◌then◌else◌,
}
use famclaw.Prelude.Text.{str_eq}

pub record UsedToken : Type 0 where
  pub token_hash : String
  pub used_at : ℕ

unfoldable pub count_token : String → List UsedToken → ℕ
count_token hash [] = 0
count_token hash (t ∷ rows) =
    if str_eq t.token_hash hash then suc (count_token hash rows) else count_token hash rows

-- INSERT OR IGNORE
unfoldable pub insert_token : ℕ → String → List UsedToken → List UsedToken
unfolding count_token
insert_token now hash rows =
    if count_token hash rows == 0
    then rows ++ record { token_hash = hash; used_at = now } ∷ []
    else rows

-- The count that fails is 0.
unfoldable pub mark_token_used :
    (inserted counted : Bool) → ℕ → String → List UsedToken → List UsedToken × Option Bool
unfolding insert_token
mark_token_used inserted counted now hash rows =
    if not inserted
    then (rows, none)
    else (let rows' = insert_token now hash rows in
        (rows', some ((if counted then count_token hash rows' else 0) == 1)))

unfoldable pub is_token_used : Bool → String → List UsedToken → Bool
unfolding count_token
is_token_used counted hash rows = ltb 0 (if counted then count_token hash rows else 0)

unfoldable pub drop_before : ℕ → List UsedToken → List UsedToken
drop_before cutoff [] = []
drop_before cutoff (t ∷ rows) =
    if ltb t.used_at cutoff then drop_before cutoff rows else t ∷ drop_before cutoff rows

unfoldable pub cleanup_old_tokens :
    Bool → (now older_than : ℕ) → List UsedToken → List UsedToken × Bool
unfolding drop_before
cleanup_old_tokens executed now older_than rows =
    if executed then (drop_before (now - older_than) rows, true) else (rows, false)
