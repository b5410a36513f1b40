-- ===== src/Toolcache/Files.antt =====
-- The payload files of internal/toolcache/fs.go and paths.go: a file is its path and its bytes.
use Prim.Native.Char.{code}
use Prim.Native.String.{◌++◌ as ◌⧺◌}
use famclaw.Prelude.{
  ℕ, Bool, ◌&&◌, ◌||◌, String, Option, none, some, List, [], ◌∷◌, leb, ◌==◌, take, drop,
  if◌then◌else◌,
}
use famclaw.Prelude.Text.{str_eq}

pub record File : Type 0 where
  pub path : String
  pub payload : List ℕ

abbrev pub is_safe : ℕ → Bool
is_safe c =
    leb b'a' c && leb c b'z' || leb b'A' c && leb c b'Z' || leb b'0' c && leb c b'9' || c == b'-'

unfoldable pub sanitized : String → String
sanitized String.[] = String.[]
sanitized (String.◌∷◌ c s) =
    let rest = sanitized s in if is_safe (code c) then String.◌∷◌ c rest else "_" ⧺ rest

unfoldable pub sanitize_user_name : String → String
unfolding sanitized
sanitize_user_name name = if str_eq name "" then "_" else sanitized name

-- The path of a payload, relative to the root of the cache.
unfoldable pub payload_path : (user id : String) → String
unfolding sanitize_user_name
payload_path user id = sanitize_user_name user ⧺ ("/" ⧺ (id ⧺ ".bin"))

unfoldable pub file_at : String → List File → Option (List ℕ)
file_at path [] = none
file_at path (f ∷ files) = if str_eq f.path path then some f.payload else file_at path files

unfoldable pub delete_payload : String → List File → List File
delete_payload path [] = []
delete_payload path (f ∷ files) =
    let rest = delete_payload path files in if str_eq f.path path then rest else f ∷ rest

-- O_CREATE and O_TRUNC: the file is replaced.
unfoldable pub write_payload : String → List ℕ → List File → List File
unfolding delete_payload
write_payload path payload files =
    record { path = path; payload = payload } ∷ delete_payload path files

-- The bytes from an offset on, `none` if the file cannot be opened.
unfoldable pub read_payload : String → (offset length : ℕ) → List File → Option (List ℕ)
unfolding file_at
read_payload path offset length files = elim (file_at path files) [
  | none ↦ none
  | some payload ↦ some (take length (drop offset payload))
]
