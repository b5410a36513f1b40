-- ===== src/Toolcache/Ids.antt =====
-- `IDGenerator` (internal/toolcache/id.go). A byte is a number below 256, and the bits of a byte that the
-- code takes with masks and shifts are quotients and remainders.
pub mod Digits
pub mod Order
use famclaw.Prelude.{
  ℕ, suc, ◌+◌, ◌*◌, ◌/◌, ◌%◌, Bool, true, false, Option, none, some, List, [], ◌∷◌, ◌++◌, ◌==◌, ltb,
  ◌-◌, if◌then◌else◌,
}

pub record IdGenerator : Type 0 where
  pub last_millis : ℕ
  -- ten bytes
  pub last_rand : List ℕ

abbrev pub new_id_generator : IdGenerator
new_id_generator = record {
  last_millis = 0;
  last_rand = 0 ∷ 0 ∷ 0 ∷ 0 ∷ 0 ∷ 0 ∷ 0 ∷ 0 ∷ 0 ∷ 0 ∷ [];
}

-- The next byte of the increment, and whether the carry goes on.
abbrev pub carried : ℕ → List ℕ × Bool → List ℕ × Bool
carried b (bytes, true) = (((b + 1) % 256) ∷ bytes, (b + 1) % 256 == 0)
carried b (bytes, false) = (b ∷ bytes, false)

-- One more, as an 80-bit number, and whether it overflows to 0.
unfoldable pub increment : List ℕ → List ℕ × Bool
increment [] = ([], true)
increment (b ∷ bytes) = carried b (increment bytes)

-- The digits of the time, the highest first.
unfoldable pub time_digits : ℕ → List ℕ
time_digits now =
    now / 35184372088832 % 32
    ∷ now / 1099511627776 % 32
    ∷ now / 34359738368 % 32
    ∷ now / 1073741824 % 32
    ∷ now / 33554432 % 32
    ∷ now / 1048576 % 32
    ∷ now / 32768 % 32
    ∷ now / 1024 % 32
    ∷ now / 32 % 32
    ∷ now % 32
    ∷ []

-- Eight digits of five bytes: one half of `encodeBase32`.
unfoldable pub half_digits : (a b c d e : ℕ) → List ℕ → List ℕ
half_digits a b c d e rest =
    (a / 8)
    ∷ (a % 8 * 4 + b / 64)
    ∷ (b % 64 / 2)
    ∷ (b % 2 * 16 + c / 16)
    ∷ (c % 16 * 2 + d / 128)
    ∷ (d % 128 / 4)
    ∷ (d % 4 * 8 + e / 32)
    ∷ (e % 32)
    ∷ rest

unfoldable pub encode_base32 : List ℕ → List ℕ
unfolding half_digits
encode_base32 (a ∷ b ∷ c ∷ d ∷ e ∷ f ∷ g ∷ h ∷ i ∷ j ∷ []) =
    half_digits a b c d e (half_digits f g h i j [])
encode_base32 _ = []

-- The character of a digit in "0123456789ABCDEFGHJKMNPQRSTVWXYZ".
unfoldable pub crockford : ℕ → ℕ
crockford d =
    if ltb d 10
    then b'0' + d
    else if ltb d 18
    then b'A' + (d - 10)
    else if ltb d 20
    then b'J' + (d - 18)
    else if ltb d 22
    then b'M' + (d - 20)
    else if ltb d 27
    then b'P' + (d - 22)
    else b'V' + (d - 27)

unfoldable pub characters : List ℕ → List ℕ
unfolding crockford
characters [] = []
characters (d ∷ digits) = crockford d ∷ characters digits

unfoldable pub id_of : ℕ → List ℕ → List ℕ
unfolding characters time_digits encode_base32
id_of now bytes = characters (time_digits now ++ encode_base32 bytes)

-- `Generate` at the time `now`; `fresh` is what crypto/rand reads, `none` for its error.
unfoldable pub generate : ℕ → Option (List ℕ) → IdGenerator → IdGenerator × Option (List ℕ)
unfolding increment id_of
generate now fresh g =
    if now == g.last_millis
    then (let bytes = (increment g.last_rand).0 in
        (record g { last_rand = bytes }, some (id_of now bytes)))
    else elim fresh [
      | none ↦ (g, none)
      | some bytes ↦ (record { last_millis = now; last_rand = bytes }, some (id_of now bytes))
    ]
