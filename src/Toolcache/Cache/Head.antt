-- ===== src/Toolcache/Cache/Head.antt =====
-- The head of a payload that the model is given.
use famclaw.Prelude.{
  ℕ, suc, ◌+◌, ◌-◌, ◌≤◌, ◌<◌, zero, ◌≡◌, ◌⊎◌, refl, ap, ◌∙◌, sym, inl, inr, Bool, true, false, ◌&&◌,
  ◌||◌, none, some, List, [], ◌∷◌, ◌++◌, ◌==◌, leb, length, take, drop, take-append-drop,
  length-take, append-nil, append_assoc, arith, All, Bool-cases, Option-cases,
}
use mathlib.Core.Option.{some-injective}
use famclaw.Toolcache.Cache.{ends_sentence, sentence_end, build_head}

sentence_end_bounds :
    (lookback i : ℕ) (l : List ℕ) (n : ℕ)
    → sentence_end lookback i l ≡ some n
    → (i < n) × (n ≤ i + length l) × (lookback < n)
unfolding sentence_end
sentence_end_bounds lookback i [] n e = cc
sentence_end_bounds lookback i (c ∷ rest) n e =
    elim (Option-cases (sentence_end lookback (suc i) rest)) [
      | inl none_later ↦ ground arith
      | inr (m, later) ↦ ground (arith, sentence_end_bounds lookback (suc i) rest m later)
    ]

-- The bytes that end a sentence: a full stop, an exclamation mark, a question mark, a new line.
abbrev pub IsEnd : ℕ → Type 0
IsEnd c = (c ≡ 46) ⊎ (c ≡ 33) ⊎ (c ≡ 63) ⊎ (c ≡ 10)

abbrev pub NotEnd : ℕ → Type 0
NotEnd c = ¬ IsEnd c

ends_sentence-NotEnd : (c : ℕ) → ends_sentence c ≡ false → NotEnd c
ends_sentence-NotEnd c e = ground arith

ends_sentence-IsEnd : (c : ℕ) → ends_sentence c ≡ true → IsEnd c
ends_sentence-IsEnd c e = ground arith

nothing_dropped : (n : ℕ) → All NotEnd (drop n [])
nothing_dropped zero = tt
nothing_dropped (suc n) = tt

-- No byte from the look-back on ends a sentence.
sentence_end-none :
    (lookback i : ℕ) (l : List ℕ)
    → sentence_end lookback i l ≡ none
    → All NotEnd (drop (lookback - i) l)
unfolding sentence_end
sentence_end-none lookback i [] e = nothing_dropped (lookback - i)
sentence_end-none lookback i (c ∷ rest) e =
    elim (Option-cases (sentence_end lookback (suc i) rest)) [
      | inl none_later ↦
          let ih = sentence_end-none lookback (suc i) rest none_later in
          let e' = rw none_later at e in
          elim (Bool-cases (leb lookback i)) [
            | inl within ↦
                let z : lookback - i ≡ 0 = ground arith in
                let z' : lookback - suc i ≡ 0 = ground arith in
                rw z (ends_sentence-NotEnd c (ground arith), rw z' at ih)
            | inr before ↦ let s : lookback - i ≡ suc (lookback - suc i) = ground arith in rw s ih
          ]
      | inr (m, later) ↦ absurd (let e' = rw later at e in cc)
    ]

-- A byte that ends a sentence, with what is before and behind it; nothing behind it ends one.
record LastEnd (i n : ℕ) (l : List ℕ) : Type 0 where
  front : List ℕ
  at : ℕ
  back : List ℕ
  split : l ≡ front ++ (at ∷ back)
  place : n ≡ i + suc (length front)
  is_end : IsEnd at
  last : All NotEnd back

sentence_end-some :
    (lookback i : ℕ) (l : List ℕ) (n : ℕ) → sentence_end lookback i l ≡ some n → LastEnd i n l
unfolding sentence_end
sentence_end-some lookback i [] n e = cc
sentence_end-some lookback i (c ∷ rest) n e =
    elim (Option-cases (sentence_end lookback (suc i) rest)) [
      | inl none_later ↦
          let e' = rw none_later at e in
          let ih = sentence_end-none lookback (suc i) rest none_later in
          elim (Bool-cases (ends_sentence c && leb lookback i)) [
            | inl found ↦
                let z : lookback - suc i ≡ 0 = ground arith in
                record {
                  front = [];
                  at = c;
                  back = rest;
                  split = refl;
                  place = ground arith;
                  is_end = ends_sentence-IsEnd c (ground arith);
                  last = rw z at ih;
                }
            | inr other ↦ absurd (let e'' = rw other at e' in cc)
          ]
      | inr (m, later) ↦
          let e' = rw later at e in
          let r = sentence_end-some lookback (suc i) rest m later in
          record {
            front = c ∷ r.front;
            at = r.at;
            back = r.back;
            split = ap (λ k. c ∷ k) r.split;
            place = sym (some-injective m n e') ∙ r.place ∙ (omega arith);
            is_end = r.is_end;
            last = r.last;
          }
    ]

take_front :
    (n : ℕ) (l front : List ℕ) (c : ℕ) (back : List ℕ)
    → take n l ≡ front ++ (c ∷ back)
    → take (suc (length front)) l ≡ front ++ (c ∷ [])
take_front zero l [] c back e = cc
take_front zero l (d ∷ front) c back e = cc
take_front (suc n) [] [] c back e = cc
take_front (suc n) [] (d ∷ front) c back e = cc
take_front (suc n) (a ∷ l) [] c back e = ap (λ k. take 1 k) e
take_front (suc n) (a ∷ l) (d ∷ front) c back e =
    ap (λ k. take 1 k ++ take (suc (length front)) l) e
    ∙ ap (λ k. d ∷ k) (take_front n l front c back (ap (λ k. drop 1 k) e))

-- Where a head was cut: behind a byte that ends a sentence, the last one before the budget, or at the
-- budget, if none of the last 200 bytes ends one.
abbrev pub IsCut : List ℕ → ℕ → List ℕ → Type 0
IsCut payload budget head =
    ((front : List ℕ) × ((c : ℕ) × ((back : List ℕ) × (head ≡ front ++ (c ∷ []))
          × IsEnd c
          × (take budget payload ≡ head ++ back)
          × All NotEnd back)))
    ⊎ ((head ≡ take budget payload) × All NotEnd (drop (budget - 200) head))

-- A head of a payload under a budget, and whether it was cut.
pub record IsHead (payload : List ℕ) (budget : ℕ) (head : List ℕ) (truncated : Bool) : Type 0 where
  pub rest : List ℕ
  pub is_prefix : payload ≡ head ++ rest
  pub fits : 0 < budget → length head ≤ budget
  -- at most the look-back is lost
  pub long_enough : truncated ≡ true → 0 < budget → budget < length head + 200 + 1
  pub cut : truncated ≡ true → 0 < budget → IsCut payload budget head
  pub whole : truncated ≡ false → head ≡ payload

taken-IsHead :
    (payload : List ℕ) (budget n : ℕ)
    → n ≤ budget
    → budget < n + 200 + 1
    → budget < length payload
    → IsCut payload budget (take n payload)
    → IsHead payload budget (take n payload) true
taken-IsHead payload budget n h k l c = record {
  rest = drop n payload;
  is_prefix = sym (take-append-drop n payload);
  fits = λ p. omega (arith, length-take n payload);
  long_enough = λ t p. omega (arith, length-take n payload);
  cut = λ t p. c;
  whole = λ t. cc;
}

cut_behind :
    (payload : List ℕ) (budget n : ℕ)
    → LastEnd 0 n (take budget payload)
    → IsCut payload budget (take n payload)
cut_behind payload budget n r =
    let head : take n payload ≡ r.front ++ (r.at ∷ []) =
      ap (λ k. take k payload) {y = suc (length r.front)} (r.place ∙ omega arith)
      ∙ take_front budget payload r.front r.at r.back r.split in
    inl (
      r.front,
      (
        r.at,
        (
          r.back,
          head,
          r.is_end,
          r.split
              ∙ sym (append_assoc r.front (r.at ∷ []) r.back)
              ∙ ap (λ h. h ++ r.back) (sym head),
          r.last,
        ),
      ),
    )

-- The head is a prefix of the payload, and what is not marked as truncated is the whole payload. Under
-- a budget the head has at most as many bytes; if it is cut, then behind the last byte before the
-- budget that ends a sentence, or at the budget, if none of the last 200 bytes before it ends one: so at
-- most 200 bytes are lost.
pub build_head-IsHead :
    (payload : List ℕ) (budget : ℕ)
    → IsHead payload budget (build_head payload budget).0 (build_head payload budget).1
unfolding build_head
build_head-IsHead payload budget = elim (Bool-cases (budget == 0 || leb (length payload) budget)) [
  | inl e ↦ rw e (record {
    rest = [];
    is_prefix = sym (append-nil payload);
    fits = λ p. ground arith;
    long_enough = λ t p. ground arith;
    cut = λ t p. ground arith;
    whole = λ t. refl;
  })
  | inr n ↦
      let l : budget < length payload = ground arith in
      elim (Option-cases (sentence_end (budget - 200) 0 (take budget payload))) [
        | inl none_found ↦
            let same : budget - 200 - 0 ≡ budget - 200 = omega arith in
            let no_end' = sentence_end-none (budget - 200) 0 (take budget payload) none_found in
            let no_end = rw same at no_end' in
            rw (n, none_found)
              (taken-IsHead payload budget budget (omega arith) (omega arith) l
                (inr (refl, no_end)))
        | inr (m, found) ↦
            let b = sentence_end_bounds (budget - 200) 0 (take budget payload) m found in
            rw (n, found)
              (taken-IsHead payload budget m (omega (arith, b.1, length-take budget payload))
                (omega (arith, b.2)) l
                (cut_behind payload budget m
                  (sentence_end-some (budget - 200) 0 (take budget payload) m found)))
      ]
]
