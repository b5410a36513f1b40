-- ===== src/Notify/Decimal.antt =====
-- Decimal numbers as `fmt` prints them and `strconv.ParseInt` reads them.
use famclaw.Prelude.{
  ℕ, zero, suc, ◌+◌, ◌-◌, ◌*◌, ◌/◌, ◌%◌, ◌≤◌, ◌<◌, ◌≡◌, refl, false, ◌||◌, Option, none, some, List,
  [], ◌∷◌, ◌==◌, ltb, if◌then◌else◌, ◌>>=◌, arith, All, ◌∙◌, ap, Bool-cases, inl, inr, length,
}

-- The digits of `n`, put before `out`; `n` rounds are enough, since each divides by ten.
unfoldable digits : ℕ → ℕ → List ℕ → List ℕ
digits zero n out = out
digits (suc fuel) n out =
    let rest = digits fuel (n / 10) ((b'0' + n % 10) ∷ out) in if n == 0 then out else rest

unfoldable pub format_int : ℕ → List ℕ
unfolding digits
format_int n = if n == 0 then b'0' ∷ [] else digits n n []

pub data Signed : Type 0 where
  nonneg neg : ℕ → Signed

unfoldable scan : List ℕ → ℕ → Option ℕ
scan [] n = some n
scan (c ∷ s) n =
    let rest = scan s (n * 10 + (c - b'0')) in if ltb c b'0' || ltb b'9' c then none else rest

unfoldable parse_uint : List ℕ → Option ℕ
unfolding scan
parse_uint [] = none
parse_uint (c ∷ s) = scan (c ∷ s) 0

abbrev pub max_int64 : ℕ
max_int64 = 9223372036854775807

unfoldable pub parse_int : List ℕ → Option Signed
unfolding parse_uint
parse_int [] = none
parse_int (c ∷ s) =
    if c == b'-'
    then (parse_uint s >>= λ n. if ltb (suc max_int64) n then none else some (neg n))
    else (parse_uint (if c == b'+' then s else c ∷ s) >>= λ n.
        if ltb max_int64 n then none else some (nonneg n))

abbrev pub IsDigit : ℕ → Type 0
IsDigit c = (b'0' ≤ c) × (c ≤ b'9')

digits-IsDigit : (fuel n : ℕ) (out : List ℕ) → All IsDigit out → All IsDigit (digits fuel n out)
unfolding digits
digits-IsDigit zero n out h = h
digits-IsDigit (suc fuel) n out h =
    let ih = digits-IsDigit fuel (n / 10) ((b'0' + n % 10) ∷ out) ((omega arith, omega arith), h) in
    ground (arith, ih)

pub format_int-IsDigit : (n : ℕ) → All IsDigit (format_int n)
unfolding format_int
format_int-IsDigit n = ground (arith, digits-IsDigit n n [] tt)

scan_last : (n : ℕ) (out : List ℕ) → scan ((b'0' + n % 10) ∷ out) (n / 10) ≡ scan out n
unfolding scan
scan_last n out = let e : n / 10 * 10 + (b'0' + n % 10 - b'0') ≡ n = omega arith in ground arith

scan-digits : (fuel n : ℕ) (out : List ℕ) → n ≤ fuel → scan (digits fuel n out) 0 ≡ scan out n
unfolding digits
scan-digits zero n out h = ap (λ m. scan out m) (omega arith)
scan-digits (suc fuel) n out h =
    let ih = scan-digits fuel (n / 10) ((b'0' + n % 10) ∷ out) (omega arith) ∙ scan_last n out in
    elim (Bool-cases (n == 0)) [
      | inl z ↦ rw z (ap (λ m. scan out m) (ground arith))
      | inr p ↦ rw p ih
    ]

-- What is read of digits: their number, if it is not too large.
abbrev bounded : Option ℕ → Option Signed
bounded none = none
bounded (some n) = if ltb max_int64 n then none else some (nonneg n)

parse_int-IsDigit : (c : ℕ) (s : List ℕ) → IsDigit c → parse_int (c ∷ s) ≡ bounded (scan (c ∷ s) 0)
unfolding parse_int parse_uint scan
parse_int-IsDigit c s h =
    let m : (c == b'-') ≡ false = ground arith in
    let p : (c == b'+') ≡ false = ground arith in ground arith

parse_int-digits :
    (s : List ℕ) (n : ℕ)
    → All IsDigit s
    → n ≤ max_int64
    → scan s 0 ≡ some n
    → 0 < length s
    → parse_int s ≡ some (nonneg n)
parse_int-digits [] n h b e l = absurd (omega arith)
parse_int-digits (c ∷ s) n h b e l = parse_int-IsDigit c s h.0 ∙ rw e (ground arith)

length-digits : (fuel n : ℕ) (out : List ℕ) → length out ≤ length (digits fuel n out)
unfolding digits
length-digits zero n out = omega arith
length-digits (suc fuel) n out = ground (arith, length-digits fuel (n / 10) ((b'0' + n % 10) ∷ out))

digits-length : (n : ℕ) → (n == 0) ≡ false → 0 < length (digits n n [])
unfolding digits
digits-length zero h = cc
digits-length (suc m) h = ground (arith, length-digits m (suc m / 10) ((b'0' + suc m % 10) ∷ []))

scan-nil : (n : ℕ) → scan [] n ≡ some n
unfolding scan
scan-nil n = refl

zero_read : parse_int (b'0' ∷ []) ≡ some (nonneg 0)
unfolding parse_int parse_uint scan
zero_read = refl

-- A number that an int64 holds is read back from its print.
pub parse_int-format_int : (n : ℕ) → n ≤ max_int64 → parse_int (format_int n) ≡ some (nonneg n)
unfolding format_int
parse_int-format_int n h = elim (Bool-cases (n == 0)) [
  | inl z ↦ rw z (zero_read ∙ ap (λ m. some (nonneg m)) (ground arith))
  | inr p ↦ rw p (
      parse_int-digits (digits n n []) n (digits-IsDigit n n [] tt) h
        (scan-digits n n [] (omega arith) ∙ scan-nil n) (digits-length n p))
]
