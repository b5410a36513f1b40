-- ===== src/Gateway/Chunk/Bounds.antt =====
-- Where the cuts of internal/gateway/chunk.go can fall.
use famclaw.Prelude.{
  ℕ, zero, suc, ◌+◌, ◌≤◌, ◌<◌, ◌≡◌, inl, inr, List, [], ◌∷◌, arith, length, take, ltb,
  if◌then◌else◌, Option-cases, length-take,
}
use famclaw.Prelude.Text.{last_index, last_index_bounds}
use famclaw.Gateway.Chunk.{
  cut_behind, word_cut, fence, newline, last_code_fence_end, separator_step, terminator_step,
  last_sentence_end, rune_cut, find_cut,
}

last_code_fence_end-le : (window : List ℕ) → last_code_fence_end window ≤ length window
unfolding last_code_fence_end
last_code_fence_end-le window = elim (Option-cases (last_index fence window)) [
  | inl e ↦ ground arith
  | inr (i, e) ↦ ground (arith, last_index_bounds fence window i)
]

separator_step-le :
    (window : List ℕ) (a b best : ℕ)
    → best ≤ length window + 1
    → separator_step window (a ∷ b ∷ []) best ≤ length window + 1
unfolding separator_step
separator_step-le window a b best h = elim (Option-cases (last_index (a ∷ b ∷ []) window)) [
  | inl e ↦ ground arith
  | inr (i, e) ↦ ground (arith, last_index_bounds (a ∷ b ∷ []) window i)
]

terminator_step-le :
    (window : List ℕ) (c best : ℕ)
    → best ≤ length window + 1
    → terminator_step window c best ≤ length window + 1
unfolding terminator_step
terminator_step-le window c best h = elim (Option-cases (last_index (c ∷ []) window)) [
  | inl e ↦ ground arith
  | inr (i, e) ↦ ground (arith, last_index_bounds (c ∷ []) window i)
]

last_sentence_end-le : (window : List ℕ) → last_sentence_end window ≤ length window
unfolding last_sentence_end
last_sentence_end-le window = grind (arith, separator_step-le, terminator_step-le)

rune_cut-le : (s : List ℕ) (n : ℕ) → rune_cut s n ≤ n
unfolding rune_cut
rune_cut-le s zero = omega arith
rune_cut-le s (suc n) = ground (arith, rune_cut-le s n)

module _ (s : List ℕ) (max_len : ℕ) (positive : 0 < max_len) (long : max_len < length s) where
  length-window : length (take max_len s) ≡ max_len
  length-window = omega (arith, length-take max_len s)

  word_cut_bounds : (0 < word_cut s max_len) × (word_cut s max_len ≤ max_len)
  unfolding word_cut
  word_cut_bounds = elim (Option-cases (last_index (b' ' ∷ []) (take max_len s))) [
    | inl e ↦ ground (arith, rune_cut-le s max_len)
    | inr (i, e) ↦ ground (
      arith,
      rune_cut-le s max_len,
      length-window,
      last_index_bounds (b' ' ∷ []) (take max_len s) i e,
    )
  ]

  cut_behind_bounds :
      (c : ℕ) (sep : List ℕ) (other : ℕ)
      → 0 < other
      → other ≤ max_len
      → (0 < cut_behind (c ∷ sep) (take max_len s) other)
        × (cut_behind (c ∷ sep) (take max_len s) other ≤ max_len)
  unfolding cut_behind
  cut_behind_bounds c sep other p q = elim (Option-cases (last_index (c ∷ sep) (take max_len s))) [
    | inl e ↦ ground arith
    | inr (i, e) ↦ ground (arith, length-window, last_index_bounds (c ∷ sep) (take max_len s) i e)
  ]

  -- A cut takes at least one byte and at most `max_len`.
  pub find_cut_bounds : (0 < find_cut s max_len) × (find_cut s max_len ≤ max_len)
  unfolding find_cut
  find_cut_bounds =
      let w = take max_len s in
      let sentence =
        if ltb 0 (last_sentence_end w) then last_sentence_end w else word_cut s max_len in
      let line = cut_behind (newline ∷ []) w sentence in
      ground (
        arith,
        length-window,
        last_code_fence_end-le w,
        last_sentence_end-le w,
        word_cut_bounds,
        cut_behind_bounds newline [] sentence,
        cut_behind_bounds newline (newline ∷ []) line,
      )
