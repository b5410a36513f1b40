-- ===== src/Gateway/Chunk/Reassembly.antt =====
-- What internal/gateway/chunk.go promises of its result.
use mathlib.Core.List.{flatten}
use famclaw.Prelude.{
  ℕ, zero, suc, ◌+◌, ◌≤◌, ◌<◌, ◌≡◌, ap, ◌∙◌, inl, inr, some, List, [], ◌∷◌, ◌++◌, arith, length,
  take, drop, Bool-cases, take-append-drop, length-take, length-drop, All, ltb, leb, ltb→lt,
  append-nil,
}
use famclaw.Gateway.Chunk.{find_cut, chunk_loop, chunk_message}
use famclaw.Gateway.Chunk.Bounds.{find_cut_bounds}

-- The chunks put together are the text, and each has between 1 and `max_len` bytes.
pub record Splits (max_len : ℕ) (text : List ℕ) (chunks : List (List ℕ)) : Type 0 where
  pub whole : flatten chunks ≡ text
  pub sized : All (λ c. (0 < length c) × (length c ≤ max_len)) chunks

Splits-last :
    (max_len : ℕ) (text : List ℕ)
    → 0 < length text
    → length text ≤ max_len
    → Splits max_len text (text ∷ [])
unfolding flatten
Splits-last max_len text p q = record { whole = append-nil text; sized = ((p, q), tt) }

Splits-cut :
    (max_len cut : ℕ) (text : List ℕ) (rest : List (List ℕ))
    → 0 < cut
    → cut ≤ max_len
    → max_len < length text
    → Splits max_len (drop cut text) rest
    → Splits max_len text (take cut text ∷ rest)
unfolding flatten
Splits-cut max_len cut text rest p q r h = record {
  whole = ap (λ t. take cut text ++ t) h.whole ∙ take-append-drop cut text;
  sized = ((omega (arith, length-take cut text), omega (arith, length-take cut text)), h.sized);
}

chunk_loop-cut :
    (fuel max_len : ℕ) (text : List ℕ) (rest : List (List ℕ))
    → max_len < length text
    → chunk_loop fuel max_len (drop (find_cut text max_len) text) ≡ some rest
    → chunk_loop (suc fuel) max_len text ≡ some (take (find_cut text max_len) text ∷ rest)
unfolding chunk_loop
chunk_loop-cut fuel max_len text rest l e = ground arith

-- One byte of fuel more than the text has is enough for the loop.
pub chunk_loop_total :
    (fuel max_len : ℕ) (text : List ℕ)
    → 0 < max_len
    → 0 < length text
    → length text < fuel
    → (chunks : List (List ℕ)) × (chunk_loop fuel max_len text ≡ some chunks)
      × Splits max_len text chunks
unfolding chunk_loop
chunk_loop_total zero max_len text p n f = absurd (omega arith)
chunk_loop_total (suc fuel) max_len text p n f = elim (Bool-cases (ltb max_len (length text))) [
  | inl long ↦
      let l = ltb→lt _ _ long in
      let b = find_cut_bounds text max_len p l in
      let cut = find_cut text max_len in
      let (rest, e, s) =
        chunk_loop_total fuel max_len (drop cut text) p (omega (arith, b, length-drop cut text))
          (omega (arith, b, length-drop cut text)) in
      (
        take cut text ∷ rest,
        chunk_loop-cut fuel max_len text rest l e,
        Splits-cut max_len cut text rest b.0 b.1 l s,
      )
  | inr short ↦ (text ∷ [], ground arith, Splits-last max_len text n (ground arith))
]

-- For a text that is not empty and a positive limit, `ChunkMessage` ends, its chunks put together
-- are the text, and each chunk has at least one byte and at most `max_len` bytes.
pub chunk_message-Splits :
    (text : List ℕ) (max_len : ℕ)
    → 0 < max_len
    → 0 < length text
    → (chunks : List (List ℕ)) × (chunk_message text max_len ≡ some chunks)
      × Splits max_len text chunks
unfolding chunk_message
chunk_message-Splits text max_len p n = elim (Bool-cases (leb (length text) max_len)) [
  | inl short ↦ (text ∷ [], ground arith, Splits-last max_len text n (ground arith))
  | inr long ↦
      let (chunks, e, s) = chunk_loop_total (length text + 1) max_len text p n (omega arith) in
      (chunks, ground arith, s)
]
