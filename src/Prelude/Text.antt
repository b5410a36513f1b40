-- ===== src/Prelude/Text.antt =====
-- Texts as the list of their bytes, with the functions of Go's package `strings` that the program
-- calls, and whole texts compared.
use Prim.Native.Nat.{ℕ, ◌+◌, ◌≤◌}
use Prim.Native.Char.{code}
use Prim.Native.String.{String}
use mathlib.Core.Path.{◌≡◌, sym, ap, ◌∙◌}
use mathlib.Core.Bool.{Bool, true, false, ◌&&◌, ◌||◌}
use mathlib.Core.Option.{Option, none, some}
use mathlib.Core.List.{List, [], ◌∷◌, ◌++◌}
use native.Mathlib.Omega.{arith}
use mathlib.Core.Logic.{inl, inr}
use famclaw.Prelude.Tests.{leb, ltb, ◌==◌, if◌then◌else◌, Option-cases, Bool-cases}
use famclaw.Prelude.Lists.{length}
pub use text.Mathlib.Text.{◌==◌ as str_eq}
pub use text.Mathlib.TextEquality.{eq_iff}
pub use text.Mathlib.TextPositions.{eq_refl}

-- The code points of a text: its bytes, if it is ASCII.
abbrev pub codes : String → List ℕ
codes String.[] = []
codes (String.◌∷◌ c s) = code c ∷ codes s

-- `strings.HasPrefix(s, p)`, its arguments exchanged.
unfoldable pub has_prefix : List ℕ → List ℕ → Bool
has_prefix [] s = true
has_prefix (p ∷ ps) [] = false
has_prefix (p ∷ ps) (c ∷ s) = p == c && has_prefix ps s

pub length-has_prefix : (p s : List ℕ) → has_prefix p s ≡ true → length p ≤ length s
unfolding has_prefix
length-has_prefix [] s h = omega arith
length-has_prefix (p ∷ ps) [] h = cc
length-has_prefix (p ∷ ps) (c ∷ s) h = ground (arith, length-has_prefix ps s)

-- `strings.LastIndex(s, p)` for a `p` that is not empty; `none` is -1.
unfoldable pub last_index : List ℕ → List ℕ → Option ℕ
last_index p [] = none
last_index p (c ∷ s) = elim (last_index p s) [
  | some i ↦ some (i + 1)
  | none ↦ if has_prefix p (c ∷ s) then some 0 else none
]

pub last_index_bounds : (p s : List ℕ) (i : ℕ) → last_index p s ≡ some i → i + length p ≤ length s
unfolding last_index
last_index_bounds p [] i h = cc
last_index_bounds p (c ∷ s) i h = elim (Option-cases (last_index p s)) [
  | inl e ↦ ground (arith, length-has_prefix p (c ∷ s))
  | inr (j, e) ↦ ground (arith, last_index_bounds p s j)
]

-- Two texts that are equal, or of which one is a third, in a test.
pub joined : (x y k : String) → str_eq x y ≡ true → str_eq x k ≡ str_eq y k
joined x y k h = ap (λ z. str_eq z k) ((eq_iff x y).0 h)

pub apart : (x y k : String) → str_eq x y ≡ false → str_eq x k ≡ true → str_eq y k ≡ false
apart x y k h e = elim (Bool-cases (str_eq y k)) [
  | inl s ↦
      let same : x ≡ y = (eq_iff x k).0 e ∙ sym ((eq_iff y k).0 s) in
      let t = (eq_iff x y).1 same in cc
  | inr d ↦ d
]

pub flipped : (x y : String) → str_eq x y ≡ false → str_eq y x ≡ false
flipped x y h = elim (Bool-cases (str_eq y x)) [
  | inl s ↦ let t = (eq_iff x y).1 (sym ((eq_iff y x).0 s)) in cc
  | inr d ↦ d
]

abbrev pub same_text : List ℕ → List ℕ → Bool
same_text [] [] = true
same_text (a ∷ l) (b ∷ k) = a == b && same_text l k
same_text _ _ = false

abbrev pub lower : ℕ → ℕ
lower c = if leb 65 c && leb c 90 then c + 32 else c

unfoldable pub to_lower : List ℕ → List ℕ
to_lower [] = []
to_lower (c ∷ text) = lower c ∷ to_lower text

abbrev pub is_space : ℕ → Bool
is_space c = c == 32 || leb 9 c && leb c 13

unfoldable pub trim_left : List ℕ → List ℕ
trim_left [] = []
trim_left (c ∷ text) = let rest = trim_left text in if is_space c then rest else c ∷ text

-- The text without the white space at its end.
unfoldable pub trim_right : List ℕ → List ℕ
trim_right [] = []
trim_right (c ∷ text) = elim (trim_right text) [
  | [] ↦ if is_space c then [] else c ∷ []
  | (d ∷ rest) ↦ c ∷ d ∷ rest
]

-- `strings.EqualFold`, of which only the letters of ASCII are made lower.
unfoldable pub equal_fold : List ℕ → List ℕ → Bool
unfolding to_lower
equal_fold s t = same_text (to_lower s) (to_lower t)

-- `strings.TrimSpace`
unfoldable pub trim_space : List ℕ → List ℕ
unfolding trim_left trim_right
trim_space s = trim_right (trim_left s)

-- The fields behind one that has begun, `word`, if it is not empty.
abbrev pub closed_field : List ℕ → List (List ℕ) → List (List ℕ)
closed_field [] rest = rest
closed_field (c ∷ word) rest = (c ∷ word) ∷ rest

unfoldable pub fields_from : List ℕ → List ℕ → List (List ℕ)
fields_from word [] = closed_field word []
fields_from word (c ∷ s) =
    let next = fields_from [] s in
    let more = fields_from (word ++ (c ∷ [])) s in
    if is_space c then closed_field word next else more

-- `strings.Fields`
unfoldable pub split_fields : List ℕ → List (List ℕ)
unfolding fields_from
split_fields s = fields_from [] s

-- The number of bytes of a character in UTF-8, and Go's `len` of a text.
abbrev pub utf8_width : ℕ → ℕ
utf8_width c = if ltb c 128 then 1 else if ltb c 2048 then 2 else if ltb c 65536 then 3 else 4

unfoldable pub byte_length : String → ℕ
byte_length String.[] = 0
byte_length (String.◌∷◌ c s) = utf8_width (code c) + byte_length s
