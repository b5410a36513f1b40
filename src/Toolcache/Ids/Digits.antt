-- ===== src/Toolcache/Ids/Digits.antt =====
-- What the digits of an id are worth.
use famclaw.Prelude.{
  ℕ, ◌+◌, ◌*◌, ◌/◌, ◌%◌, ◌<◌, ◌≡◌, refl, sym, ap, ◌∙◌, inl, inr, Bool, true, false, ◌&&◌, ◌||◌,
  List, [], ◌∷◌, ◌++◌, ◌==◌, ltb, arith, All, length, Bool-cases,
}
use mathlib.Core.Path.{subst}
use famclaw.Toolcache.Ids.{time_digits, half_digits, encode_base32, crockford, characters}

-- The order of texts of the same length.
abbrev pub sorts_before : List ℕ → List ℕ → Bool
sorts_before [] t = false
sorts_before (a ∷ s) [] = false
sorts_before (a ∷ s) (b ∷ t) = ltb a b || (a == b && sorts_before s t)

abbrev pub IsByte : ℕ → Type 0
IsByte b = b < 256

abbrev pub IsDigit : ℕ → Type 0
IsDigit d = d < 32

crockford_mono : (c d : ℕ) → c < d → IsDigit d → crockford c < crockford d
unfolding crockford
crockford_mono c d h k = ground arith

pub characters-sorts_before :
    (s t : List ℕ)
    → All IsDigit t
    → sorts_before s t ≡ true
    → sorts_before (characters s) (characters t) ≡ true
unfolding characters
characters-sorts_before [] t h e = cc
characters-sorts_before (a ∷ s) [] h e = cc
characters-sorts_before (a ∷ s) (b ∷ t) h e = elim (Bool-cases (ltb a b)) [
  | inl l ↦ let m = crockford_mono a b (ground arith) h.0 in ground arith
  | inr n ↦
      let same : a ≡ b = ground arith in
      let ih = characters-sorts_before s t h.1 (ground arith) in
      let c : crockford a ≡ crockford b = ap crockford same in ground arith
]

-- The number that digits of the base 32, or bytes, spell behind a number.
abbrev pub value32 : ℕ → List ℕ → ℕ
value32 acc [] = acc
value32 acc (d ∷ digits) = value32 (acc * 32 + d) digits

abbrev pub value256 : ℕ → List ℕ → ℕ
value256 acc [] = acc
value256 acc (b ∷ bytes) = value256 (acc * 256 + b) bytes

value32_mono :
    (s t : List ℕ) (a b : ℕ)
    → length s ≡ length t
    → All IsDigit s
    → a < b
    → value32 a s < value32 b t
value32_mono [] [] a b l h k = k
value32_mono [] (d ∷ t) a b l h k = absurd (omega arith)
value32_mono (c ∷ s) [] a b l h k = absurd (omega arith)
value32_mono (c ∷ s) (d ∷ t) a b l h k =
    value32_mono s t (a * 32 + c) (b * 32 + d) (omega arith) h.1 (omega (arith, h.0))

pub value256_mono :
    (s t : List ℕ) (a b : ℕ)
    → length s ≡ length t
    → All IsByte s
    → a < b
    → value256 a s < value256 b t
value256_mono [] [] a b l h k = k
value256_mono [] (d ∷ t) a b l h k = absurd (omega arith)
value256_mono (c ∷ s) [] a b l h k = absurd (omega arith)
value256_mono (c ∷ s) (d ∷ t) a b l h k =
    value256_mono s t (a * 256 + c) (b * 256 + d) (omega arith) h.1 (omega (arith, h.0))

-- Digits of a smaller number sort before.
pub value32-sorts_before :
    (s t : List ℕ) (acc : ℕ)
    → length s ≡ length t
    → All IsDigit t
    → value32 acc s < value32 acc t
    → sorts_before s t ≡ true
value32-sorts_before [] [] acc l h k = absurd (omega arith)
value32-sorts_before [] (d ∷ t) acc l h k = absurd (omega arith)
value32-sorts_before (c ∷ s) [] acc l h k = absurd (omega arith)
value32-sorts_before (c ∷ s) (d ∷ t) acc l h k = elim (Bool-cases (ltb c d)) [
  | inl less ↦ rw less refl
  | inr n ↦ elim (Bool-cases (c == d)) [
    | inl same ↦
        let e : c ≡ d = ground arith in
        let k' : value32 (acc * 32 + c) s < value32 (acc * 32 + c) t =
          subst (λ x. value32 (acc * 32 + c) s < value32 (acc * 32 + x) t) (sym e) k in
        rw (n, same) (value32-sorts_before s t (acc * 32 + c) (omega arith) h.1 k')
    | inr differ ↦
        let m = value32_mono t s (acc * 32 + d) (acc * 32 + c) (omega arith) h.1 (ground arith) in
        absurd (omega (arith, m))
  ]
]

value32-half_digits :
    (acc a b c d e : ℕ) (rest : List ℕ)
    → IsByte a
    → IsByte b
    → IsByte c
    → IsByte d
    → IsByte e
    → value32 acc (half_digits a b c d e rest)
      ≡ value32 (((((acc * 256 + a) * 256 + b) * 256 + c) * 256 + d) * 256 + e) rest
unfolding half_digits
value32-half_digits acc a b c d e rest ha hb hc hd he = ap (λ n. value32 n rest) (omega arith)

half_digits-IsDigit :
    (a b c d e : ℕ) (rest : List ℕ)
    → IsByte a
    → IsByte b
    → IsByte c
    → IsByte d
    → IsByte e
    → All IsDigit rest
    → All IsDigit (half_digits a b c d e rest)
unfolding half_digits
half_digits-IsDigit a b c d e rest ha hb hc hd he h = (
  omega arith,
  (
    omega arith,
    (omega arith, (omega arith, (omega arith, (omega arith, (omega arith, (omega arith, h)))))),
  ),
)

-- Ten bytes.
abbrev pub IsRandom : List ℕ → Type 0
IsRandom bytes = All IsByte bytes × (length bytes ≡ 10)

-- What the digits of ten bytes are.
pub record Encodes (bytes : List ℕ) : Type 0 where
  pub digits : All IsDigit (encode_base32 bytes)
  pub count : length (encode_base32 bytes) ≡ 16
  pub number : (acc : ℕ) → value32 acc (encode_base32 bytes) ≡ value256 acc bytes

pub encode_base32-Encodes : (bytes : List ℕ) → IsRandom bytes → Encodes bytes
unfolding encode_base32
encode_base32-Encodes (a ∷ b ∷ c ∷ d ∷ e ∷ f ∷ g ∷ h ∷ i ∷ j ∷ [])
      ((pa, (pb, (pc, (pd, (pe, (pf, (pg, (ph, (pi, (pj, _)))))))))), l) =
    record {
      digits =
          half_digits-IsDigit a b c d e (half_digits f g h i j []) pa pb pc pd pe
            (half_digits-IsDigit f g h i j [] pf pg ph pi pj tt);
      count = refl;
      number = λ acc.
          value32-half_digits acc a b c d e (half_digits f g h i j []) pa pb pc pd pe
          ∙ value32-half_digits (((((acc * 256 + a) * 256 + b) * 256 + c) * 256 + d) * 256 + e) f g
              h i j [] pf pg ph pi pj;
    }
encode_base32-Encodes _ (h, l) = absurd (omega arith)

-- The bound on a time that ten digits hold: more than 35000 years of milliseconds.
abbrev pub max_millis : ℕ
max_millis = 1125899906842624

pub value32-time_digits :
    (now : ℕ) (rest : List ℕ)
    → now < max_millis
    → value32 0 (time_digits now ++ rest) ≡ value32 now rest
unfolding time_digits
value32-time_digits now rest h =
    let e1 : now / 35184372088832 % 32 * 32 + now / 1099511627776 % 32 ≡ now / 1099511627776 =
      omega arith in
    let e2 : now / 1099511627776 * 32 + now / 34359738368 % 32 ≡ now / 34359738368 = omega arith in
    let e3 : now / 34359738368 * 32 + now / 1073741824 % 32 ≡ now / 1073741824 = omega arith in
    let e4 : now / 1073741824 * 32 + now / 33554432 % 32 ≡ now / 33554432 = omega arith in
    let e5 : now / 33554432 * 32 + now / 1048576 % 32 ≡ now / 1048576 = omega arith in
    let e6 : now / 1048576 * 32 + now / 32768 % 32 ≡ now / 32768 = omega arith in
    let e7 : now / 32768 * 32 + now / 1024 % 32 ≡ now / 1024 = omega arith in
    let e8 : now / 1024 * 32 + now / 32 % 32 ≡ now / 32 = omega arith in
    let e9 : now / 32 * 32 + now % 32 ≡ now = omega arith in
    ap (λ n. value32 n rest) (omega (arith, e1, e2, e3, e4, e5, e6, e7, e8, e9))

pub time_digits-IsDigit :
    (now : ℕ) (rest : List ℕ) → All IsDigit rest → All IsDigit (time_digits now ++ rest)
unfolding time_digits
time_digits-IsDigit now rest h = (
  omega arith,
  (
    omega arith,
    (
      omega arith,
      (
        omega arith,
        (omega arith, (omega arith, (omega arith, (omega arith, (omega arith, (omega arith, h)))))),
      ),
    ),
  ),
)

pub length-time_digits :
    (now : ℕ) (rest : List ℕ) → length (time_digits now ++ rest) ≡ 10 + length rest
unfolding time_digits
length-time_digits now rest = omega arith
