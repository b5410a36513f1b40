-- ===== src/Notify/Token.antt =====
-- `GenerateToken` and `VerifyToken`. A text is the list of its bytes, a time the number of its
-- seconds; the HMAC in hexadecimal, from the standard library, is given.
pub mod RoundTrip
use famclaw.Prelude.{
  ℕ, zero, suc, ◌+◌, ◌*◌, Bool, true, false, ◌||◌, Option, none, some, List, [], ◌∷◌, ◌++◌, ◌==◌,
  ltb, leb, if◌then◌else◌,
}
use famclaw.Notify.Base64.{encode, decode}
use famclaw.Notify.Decimal.{format_int, Signed, nonneg, neg, max_int64, parse_int}

abbrev pub colon : ℕ
colon = b':'

-- The HMAC of a payload under a secret.
abbrev pub Sign : Type 0
Sign = List ℕ → List ℕ → List ℕ

-- The format "%s:%s".
abbrev pub joined : List ℕ → List ℕ → List ℕ
joined before after = before ++ (colon ∷ after)

abbrev pub payload_of : (id action issued : List ℕ) → List ℕ
payload_of id action issued = joined id (joined action issued)

unfoldable pub generate_token : Sign → ℕ → (id action secret : List ℕ) → List ℕ
generate_token sign now id action secret =
    let payload = payload_of id action (format_int now) in
    encode (joined payload (sign secret payload))

-- `strings.Cut(s, ":")`
unfoldable pub cut_colon : List ℕ → Option (List ℕ × List ℕ)
cut_colon [] = none
cut_colon (c ∷ s) =
    let rest = cut_colon s in
    if c == colon
    then some ([], s)
    else elim rest [ none ↦ none | some (before, after) ↦ some (c ∷ before, after) ]

-- `strings.SplitN(s, ":", n)` for a positive `n`, of which `n - 1` is given.
unfoldable pub split_n : ℕ → List ℕ → List (List ℕ)
unfolding cut_colon
split_n zero s = s ∷ []
split_n (suc n) s = elim (cut_colon s) [
  | none ↦ s ∷ []
  | some (before, after) ↦ before ∷ split_n n after
]

unfoldable pub same_bytes : List ℕ → List ℕ → Bool
same_bytes [] [] = true
same_bytes [] (b ∷ t) = false
same_bytes (a ∷ s) [] = false
same_bytes (a ∷ s) (b ∷ t) = let rest = same_bytes s t in if a == b then rest else false

-- `now > issued + hours*3600` on int64: a sum that is too large is negative.
unfoldable pub is_expired : (now : ℕ) (hours : Signed) → Signed → Bool
is_expired now (nonneg hours) (nonneg issued) =
    ltb max_int64 (issued + hours * 3600) || ltb (issued + hours * 3600) now
is_expired now (nonneg hours) (neg before) = ltb (hours * 3600) (now + before)
is_expired now (neg hours) (nonneg issued) = ltb issued (now + hours * 3600)
is_expired now (neg hours) (neg before) = ltb 0 (now + before + hours * 3600)

pub data TokenError : Type 0 where
  invalid_encoding invalid_format invalid_timestamp token_expired invalid_signature : TokenError

pub data Verified : Type 0 where
  accepted : (id action : List ℕ) → Verified
  refused : TokenError → Verified

-- The checks behind the split.
unfoldable pub verify_parts :
    Sign → (now : ℕ) (hours : Signed) → (secret id action issued sig : List ℕ) → Verified
unfolding is_expired same_bytes
verify_parts sign now hours secret id action issued sig = elim (parse_int issued) [
  | none ↦ refused invalid_timestamp
  | some t ↦
      if is_expired now hours t
      then refused token_expired
      else if same_bytes sig (sign secret (payload_of id action issued))
      then accepted id action
      else refused invalid_signature
]

unfoldable pub verify_split : Sign → (now : ℕ) (hours : Signed) → List ℕ → List (List ℕ) → Verified
unfolding verify_parts
verify_split sign now hours secret (id ∷ action ∷ issued ∷ sig ∷ []) =
    verify_parts sign now hours secret id action issued sig
verify_split sign now hours secret _ = refused invalid_format

unfoldable pub verify_token : Sign → ℕ → (token secret : List ℕ) → Signed → Verified
unfolding split_n verify_split
verify_token sign now token secret hours = elim (decode token) [
  | none ↦ refused invalid_encoding
  | some decoded ↦ verify_split sign now hours secret (split_n 3 decoded)
]
