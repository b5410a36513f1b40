-- ===== src/Toolcache/Ids/Order.antt =====
-- The ids of one generator sort in the order in which they were made.
use famclaw.Prelude.{
  ℕ, suc, ◌+◌, ◌*◌, ◌%◌, ◌≤◌, ◌<◌, ◌≡◌, refl, sym, ap, ◌∙◌, inl, inr, Bool, true, false, Option,
  none, some, List, [], ◌∷◌, ◌++◌, ◌==◌, arith, All, length, Bool-cases,
}
use mathlib.Core.Path.{subst}
use famclaw.Toolcache.Ids.{
  IdGenerator, carried, increment, time_digits, encode_base32, id_of, generate,
}
use famclaw.Toolcache.Ids.Digits.{
  sorts_before, IsByte, characters-sorts_before, value256, value256_mono, value32-sorts_before,
  IsRandom, encode_base32-Encodes, max_millis, value32-time_digits, time_digits-IsDigit,
  length-time_digits,
}

-- An id of a smaller number sorts before one of a larger.
id_of-sorts_before :
    (m n : ℕ) (s t : List ℕ)
    → m < max_millis
    → n < max_millis
    → IsRandom s
    → IsRandom t
    → value256 m s < value256 n t
    → sorts_before (id_of m s) (id_of n t) ≡ true
unfolding id_of
id_of-sorts_before m n s t hm hn hs ht k =
    let es = encode_base32-Encodes s hs in
    let et = encode_base32-Encodes t ht in
    let vs = value32-time_digits m (encode_base32 s) hm ∙ es.number m in
    let vt = value32-time_digits n (encode_base32 t) hn ∙ et.number n in
    characters-sorts_before (time_digits m ++ encode_base32 s) (time_digits n ++ encode_base32 t)
      (time_digits-IsDigit n (encode_base32 t) et.digits)
      (value32-sorts_before (time_digits m ++ encode_base32 s) (time_digits n ++ encode_base32 t) 0
        (omega (
          arith,
          length-time_digits m (encode_base32 s),
          es.count,
          length-time_digits n (encode_base32 t),
          et.count,
        ))
        (time_digits-IsDigit n (encode_base32 t) et.digits) (omega (arith, vs, vt, k)))

length-carried : (b : ℕ) (p : List ℕ × Bool) → length (carried b p).0 ≡ suc (length p.0)
length-carried b (bytes, true) = refl
length-carried b (bytes, false) = refl

length-increment : (bytes : List ℕ) → length (increment bytes).0 ≡ length bytes
unfolding increment
length-increment [] = refl
length-increment (b ∷ bytes) = length-carried b (increment bytes) ∙ ap suc (length-increment bytes)

carried-IsByte :
    (b : ℕ) (p : List ℕ × Bool) → IsByte b → All IsByte p.0 → All IsByte (carried b p).0
carried-IsByte b (bytes, true) h k = (omega arith, k)
carried-IsByte b (bytes, false) h k = (h, k)

increment-IsByte : (bytes : List ℕ) → All IsByte bytes → All IsByte (increment bytes).0
unfolding increment
increment-IsByte [] h = tt
increment-IsByte (b ∷ bytes) h = carried-IsByte b (increment bytes) h.0 (increment-IsByte bytes h.1)

-- The increment without an overflow is a larger number.
carried-grows :
    (acc b : ℕ) (bytes : List ℕ) (p : List ℕ × Bool)
    → length p.0 ≡ length bytes
    → IsByte b
    → All IsByte bytes
    → ((a : ℕ) → p.1 ≡ false → value256 a bytes < value256 a p.0)
    → (carried b p).1 ≡ false
    → value256 acc (b ∷ bytes) < value256 acc (carried b p).0
carried-grows acc b bytes (t, false) l hb h ih e = ih (acc * 256 + b) refl
carried-grows acc b bytes (t, true) l hb h ih e =
    value256_mono bytes t (acc * 256 + b) (acc * 256 + (b + 1) % 256) (sym l) h (ground arith)

increment-grows :
    (acc : ℕ) (bytes : List ℕ)
    → All IsByte bytes
    → (increment bytes).1 ≡ false
    → value256 acc bytes < value256 acc (increment bytes).0
unfolding increment
increment-grows acc [] h e = cc
increment-grows acc (b ∷ bytes) h e =
    carried-grows acc b bytes (increment bytes) (length-increment bytes) h.0 h.1
      (λ a. increment-grows a bytes h.1) e

increment-IsRandom : (bytes : List ℕ) → IsRandom bytes → IsRandom (increment bytes).0
increment-IsRandom bytes (h, l) = (increment-IsByte bytes h, length-increment bytes ∙ l)

-- The bytes that were read, if any, are ten.
abbrev pub FreshRandom : Option (List ℕ) → Type 0
FreshRandom none = Unit
FreshRandom (some bytes) = IsRandom bytes

-- What a call that returns an id leaves.
record Made (now : ℕ) (id : List ℕ) (g h : IdGenerator) : Type 0 where
  is_id : id ≡ id_of now h.last_rand
  at : h.last_millis ≡ now
  random : IsRandom h.last_rand
  grown : (now ≡ g.last_millis) → h.last_rand ≡ (increment g.last_rand).0

later_Made :
    (now : ℕ) (fresh : Option (List ℕ)) (g : IdGenerator) (id : List ℕ)
    → (now == g.last_millis) ≡ false
    → FreshRandom fresh
    → (generate now fresh g).1 ≡ some id
    → Made now id g (generate now fresh g).0
unfolding generate
later_Made now none g id n f e = let e' = rw n at e in cc
later_Made now (some bytes) g id n f e = rw n (record {
  is_id = ap (λ o. elim o [ some i ↦ i | none ↦ id ]) (sym (rw n at e));
  at = refl;
  random = f;
  grown = λ s. absurd (ground arith);
})

generate-Made :
    (now : ℕ) (fresh : Option (List ℕ)) (g : IdGenerator) (id : List ℕ)
    → IsRandom g.last_rand
    → FreshRandom fresh
    → (generate now fresh g).1 ≡ some id
    → Made now id g (generate now fresh g).0
unfolding generate
generate-Made now fresh g id r f e = elim (Bool-cases (now == g.last_millis)) [
  | inl same ↦ rw same (record {
    is_id = ap (λ o. elim o [ some i ↦ i | none ↦ id ]) (sym (rw same at e));
    at = ground arith;
    random = increment-IsRandom g.last_rand r;
    grown = λ s. refl;
  })
  | inr other ↦ later_Made now fresh g id other f e
]

number_grows :
    (m n : ℕ) (s t : List ℕ)
    → IsRandom s
    → IsRandom t
    → m ≤ n
    → (increment s).1 ≡ false
    → (m ≡ n → t ≡ (increment s).0)
    → value256 m s < value256 n t
number_grows m n s t hs ht l o g = elim (Bool-cases (m == n)) [
  | inl same ↦
      let e : m ≡ n = ground arith in
      subst (λ x. value256 m s < value256 x t) e
        (subst (λ x. value256 m s < value256 m x) (sym (g e)) (increment-grows m s hs.0 o))
  | inr other ↦ value256_mono s t m n (omega (arith, hs.1, ht.1)) hs.0 (ground arith)
]

-- A later id of one generator sorts after an earlier one, as long as the clock does not go back and the
-- random part, when it is counted up within a millisecond, does not overflow.
pub generate-sorts_before :
    (t1 t2 : ℕ) (f1 f2 : Option (List ℕ)) (g : IdGenerator) (id1 id2 : List ℕ)
    → IsRandom g.last_rand
    → FreshRandom f1
    → FreshRandom f2
    → t1 ≤ t2
    → t2 < max_millis
    → let h = (generate t1 f1 g).0 in
      (generate t1 f1 g).1 ≡ some id1
      → (increment h.last_rand).1 ≡ false
      → (generate t2 f2 h).1 ≡ some id2
      → sorts_before id1 id2 ≡ true
generate-sorts_before t1 t2 f1 f2 g id1 id2 r p q l b e1 o e2 =
    let h = (generate t1 f1 g).0 in
    let m1 = generate-Made t1 f1 g id1 r p e1 in
    let m2 = generate-Made t2 f2 h id2 m1.random q e2 in
    let k = (generate t2 f2 h).0 in
    let less : value256 t1 h.last_rand < value256 t2 k.last_rand =
      number_grows t1 t2 h.last_rand k.last_rand m1.random m2.random l o
        (λ s. m2.grown (sym s ∙ sym m1.at)) in
    subst (λ i. sorts_before i id2 ≡ true) (sym m1.is_id)
      (subst (λ i. sorts_before (id_of t1 h.last_rand) i ≡ true) (sym m2.is_id)
        (id_of-sorts_before t1 t2 h.last_rand k.last_rand (omega arith) b m1.random m2.random less))
