-- ===== src/Notify/Base64.antt =====
-- `base64.URLEncoding` of the standard library, on bytes.
use famclaw.Prelude.{
  ℕ, ◌+◌, ◌-◌, ◌*◌, ◌/◌, ◌%◌, ◌<◌, ◌≡◌, refl, ap, ◌∙◌, false, not, ◌&&◌, ◌||◌, Option, none, some,
  List, [], ◌∷◌, ◌==◌, ltb, leb, if◌then◌else◌, ◌>>=◌, arith, All,
}

abbrev pub IsByte : ℕ → Type 0
IsByte b = b < 256

unfoldable sextet_char : ℕ → ℕ
sextet_char d =
    if ltb d 26
    then b'A' + d
    else if ltb d 52
    then b'a' + (d - 26)
    else if ltb d 62
    then b'0' + (d - 52)
    else if d == 62
    then b'-'
    else b'_'

unfoldable char_sextet : ℕ → Option ℕ
char_sextet c =
    if leb b'A' c && leb c b'Z'
    then some (c - b'A')
    else if leb b'a' c && leb c b'z'
    then some (c - b'a' + 26)
    else if leb b'0' c && leb c b'9'
    then some (c - b'0' + 52)
    else if c == b'-'
    then some 62
    else if c == b'_'
    then some 63
    else none

abbrev pad : ℕ
pad = b'='

unfoldable pub encode : List ℕ → List ℕ
unfolding sextet_char
encode [] = []
encode (a ∷ []) = sextet_char (a / 4) ∷ sextet_char (a % 4 * 16) ∷ pad ∷ pad ∷ []
encode (a ∷ b ∷ []) =
    sextet_char (a / 4) ∷ sextet_char (a % 4 * 16 + b / 16) ∷ sextet_char (b % 16 * 4) ∷ pad ∷ []
encode (a ∷ b ∷ c ∷ rest) =
    sextet_char (a / 4)
    ∷ sextet_char (a % 4 * 16 + b / 16)
    ∷ sextet_char (b % 16 * 4 + c / 64)
    ∷ sextet_char (c % 64)
    ∷ encode rest

-- `c == pad` ends a quantum early.
unfoldable decode_last : (v1 v2 c3 c4 : ℕ) → Option (List ℕ)
unfolding char_sextet
decode_last v1 v2 c3 c4 =
    if not (c4 == pad)
    then none
    else if c3 == pad
    then some ((v1 * 4 + v2 / 16) ∷ [])
    else (do v3 ← char_sextet c3; some ((v1 * 4 + v2 / 16) ∷ (v2 % 16 * 16 + v3 / 4) ∷ []))

-- The three bytes of four characters, before those that follow.
unfoldable decode_full : (v1 v2 c3 c4 : ℕ) → List ℕ → Option (List ℕ)
unfolding char_sextet
decode_full v1 v2 c3 c4 out = do
  v3 ← char_sextet c3
  v4 ← char_sextet c4
  some ((v1 * 4 + v2 / 16) ∷ (v2 % 16 * 16 + v3 / 4) ∷ (v3 % 4 * 64 + v4) ∷ out)

abbrev if_last : List ℕ → Option (List ℕ) → Option (List ℕ)
if_last [] o = o
if_last (_ ∷ _) o = none

-- Padding may stand in the last four characters only. Bits behind the last byte are ignored.
unfoldable decode_quanta : List ℕ → Option (List ℕ)
unfolding char_sextet decode_last decode_full
decode_quanta [] = some []
decode_quanta (c1 ∷ c2 ∷ c3 ∷ c4 ∷ rest) =
    let tail = decode_quanta rest in
    do
      v1 ← char_sextet c1
      v2 ← char_sextet c2
      (if c3 == pad || c4 == pad
          then if_last rest (decode_last v1 v2 c3 c4)
          else (tail >>= decode_full v1 v2 c3 c4))
decode_quanta _ = none

-- The text without the carriage returns and the new lines, which the decoder skips.
unfoldable without_newlines : List ℕ → List ℕ
without_newlines [] = []
without_newlines (c ∷ s) =
    let rest = without_newlines s in if c == 10 || c == 13 then rest else c ∷ rest

unfoldable pub decode : List ℕ → Option (List ℕ)
unfolding decode_quanta without_newlines
decode s = decode_quanta (without_newlines s)

char_sextet-sextet_char : (d : ℕ) → d < 64 → char_sextet (sextet_char d) ≡ some d
unfolding char_sextet sextet_char
char_sextet-sextet_char d h = ground arith

not_pad : (d : ℕ) → d < 64 → (sextet_char d == pad) ≡ false
unfolding sextet_char
not_pad d h = ground arith

abbrev AllBytes : List ℕ → Type 0
AllBytes = All IsByte

decode_full-encoded :
    (a b c : ℕ) (out : List ℕ)
    → IsByte a
    → IsByte b
    → IsByte c
    → decode_full
        (a / 4)
        (a % 4 * 16 + b / 16)
        (sextet_char (b % 16 * 4 + c / 64))
        (sextet_char (c % 64))
        out
      ≡ some (a ∷ b ∷ c ∷ out)
unfolding decode_full
decode_full-encoded a b c out ha hb hc =
    rw (char_sextet-sextet_char (b % 16 * 4 + c / 64) (omega arith)) (
      rw (char_sextet-sextet_char (c % 64) (omega arith)) (
        let e1 : a / 4 * 4 + (a % 4 * 16 + b / 16) / 16 ≡ a = omega arith in
        let e2 : (a % 4 * 16 + b / 16) % 16 * 16 + (b % 16 * 4 + c / 64) / 4 ≡ b = omega arith in
        let e3 : (b % 16 * 4 + c / 64) % 4 * 64 + c % 64 ≡ c = omega arith in rw (e1, e2, e3) refl))

decode_quanta-encode : (l : List ℕ) → AllBytes l → decode_quanta (encode l) ≡ some l
unfolding decode_quanta encode decode_last
decode_quanta-encode [] h = refl
decode_quanta-encode (a ∷ []) h =
    let e : a / 4 * 4 + a % 4 * 16 / 16 ≡ a = omega arith in
    rw (char_sextet-sextet_char (a / 4) (omega (arith, h.0)))
      (rw (char_sextet-sextet_char (a % 4 * 16) (omega arith)) (rw e refl))
decode_quanta-encode (a ∷ b ∷ []) h =
    let e1 : a / 4 * 4 + (a % 4 * 16 + b / 16) / 16 ≡ a = omega (arith, h.1.0) in
    let e2 : (a % 4 * 16 + b / 16) % 16 * 16 + b % 16 * 4 / 4 ≡ b = omega (arith, h.1.0) in
    rw (char_sextet-sextet_char (a / 4) (omega (arith, h.0))) (
      rw (char_sextet-sextet_char (a % 4 * 16 + b / 16) (omega (arith, h.1.0))) (
        rw (not_pad (b % 16 * 4) (omega arith))
          (rw (char_sextet-sextet_char (b % 16 * 4) (omega arith)) (rw (e1, e2) refl))))
decode_quanta-encode (a ∷ b ∷ c ∷ rest) h =
    rw (char_sextet-sextet_char (a / 4) (omega (arith, h.0))) (
      rw (char_sextet-sextet_char (a % 4 * 16 + b / 16) (omega (arith, h.1.0))) (
        rw (not_pad (b % 16 * 4 + c / 64) (omega (arith, h.1.1.0))) (
          rw (not_pad (c % 64) (omega arith)) (
            rw (decode_quanta-encode rest h.1.1.1)
              (decode_full-encoded a b c rest h.0 h.1.0 h.1.1.0)))))

printable : (d : ℕ) → 13 < sextet_char d
unfolding sextet_char
printable d = ground arith

abbrev IsPrintable : ℕ → Type 0
IsPrintable c = 13 < c

kept : (s : List ℕ) → All IsPrintable s → without_newlines s ≡ s
unfolding without_newlines
kept [] h = refl
kept (c ∷ s) h = let ih = kept s h.1 in ground (arith, ih, h.0)

encode-IsPrintable : (l : List ℕ) → All IsPrintable (encode l)
unfolding encode
encode-IsPrintable [] = tt
encode-IsPrintable (a ∷ []) =
    (printable (a / 4), (printable (a % 4 * 16), (omega arith, (omega arith, tt))))
encode-IsPrintable (a ∷ b ∷ []) = (
  printable (a / 4),
  (printable (a % 4 * 16 + b / 16), (printable (b % 16 * 4), (omega arith, tt))),
)
encode-IsPrintable (a ∷ b ∷ c ∷ rest) = (
  printable (a / 4),
  (
    printable (a % 4 * 16 + b / 16),
    (printable (b % 16 * 4 + c / 64), (printable (c % 64), encode-IsPrintable rest)),
  ),
)

-- Every text of bytes is read back from its code.
pub decode-encode : (l : List ℕ) → AllBytes l → decode (encode l) ≡ some l
unfolding decode
decode-encode l h =
    ap decode_quanta (kept (encode l) (encode-IsPrintable l)) ∙ decode_quanta-encode l h
