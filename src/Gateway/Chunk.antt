-- ===== src/Gateway/Chunk.antt =====
-- Splitting of a reply into messages that a platform accepts (internal/gateway/chunk.go). A text is
-- the list of its bytes.
mod Bounds
pub mod Reassembly
use famclaw.Prelude.{
  ℕ, zero, suc, ◌+◌, ◌-◌, ◌%◌, Bool, true, false, not, ◌&&◌, Option, none, some, List, [], ◌∷◌, ltb,
  leb, ◌==◌, if◌then◌else◌, length, take, drop,
}
use famclaw.Prelude.Text.{has_prefix, last_index}

abbrev pub fence : List ℕ
fence = b'`' ∷ b'`' ∷ b'`' ∷ []

abbrev pub newline : ℕ
newline = 10

-- `s[i]`, for `i` in range.
unfoldable pub byte_at : List ℕ → ℕ → ℕ
byte_at [] i = 0
byte_at (c ∷ s) zero = c
byte_at (c ∷ s) (suc i) = byte_at s i

-- `strings.Count(window, fence)`: occurrences that do not overlap; `skip` bytes belong to the last.
unfoldable pub count_from : ℕ → List ℕ → List ℕ → ℕ
count_from skip p [] = 0
count_from (suc skip) p (c ∷ s) = count_from skip p s
count_from zero p (c ∷ s) = elim (has_prefix p (c ∷ s)) [
  | true ↦ suc (count_from (length p - 1) p s)
  | false ↦ count_from 0 p s
]

unfoldable pub last_code_fence_end : List ℕ → ℕ
last_code_fence_end window =
    let count = count_from 0 fence window in
    if count == 0 then 0 else if not (count % 2 == 0) then 0 else elim (last_index fence window) [
      | none ↦ 0
      | some idx ↦
          let cut = idx + 3 in
          if ltb cut (length window) && byte_at window cut == newline then cut + 1 else cut
    ]

-- One round of the loop over the three separators; `best` is one more than the Go variable, which
-- starts at -1.
unfoldable pub separator_step : List ℕ → List ℕ → ℕ → ℕ
separator_step window sep best = elim (last_index sep window) [
  | none ↦ best
  | some idx ↦ if leb best idx then idx + length sep + 1 else best
]

-- One round of the loop over the three terminators.
unfoldable pub terminator_step : List ℕ → ℕ → ℕ → ℕ
terminator_step window c best = elim (last_index (c ∷ []) window) [
  | none ↦ best
  | some last ↦ if leb best last && last + 1 == length window then last + 2 else best
]

unfoldable pub last_sentence_end : List ℕ → ℕ
last_sentence_end window =
    let separated =
      separator_step window (b'!' ∷ b' ' ∷ [])
        (separator_step window (b'?' ∷ b' ' ∷ []) (separator_step window (b'.' ∷ b' ' ∷ []) 0)) in
    let best =
      terminator_step window b'!'
        (terminator_step window b'?' (terminator_step window b'.' separated)) in
    best - 1

-- `utf8.RuneStart`: the byte is no continuation byte.
unfoldable pub rune_start : ℕ → Bool
rune_start c = not (leb 128 c && ltb c 192)

-- `for cut > 0 && !utf8.RuneStart(remaining[cut]) { cut-- }`
unfoldable pub rune_cut : List ℕ → ℕ → ℕ
rune_cut remaining zero = 0
rune_cut remaining (suc n) = elim (rune_start (byte_at remaining (suc n))) [
  | true ↦ suc n
  | false ↦ rune_cut remaining n
]

-- Rules 5 and 6 of the loop: a space, or the start of a rune.
unfoldable pub word_cut : List ℕ → ℕ → ℕ
unfolding rune_cut
word_cut remaining max_len =
    let rune = rune_cut remaining max_len in
    let fallback = if rune == 0 then max_len else rune in
    elim (last_index (b' ' ∷ []) (take max_len remaining)) [
      | some idx ↦ if ltb 0 idx then idx + 1 else fallback
      | none ↦ fallback
    ]

-- The cut behind the last occurrence of `sep` in the window, or else `otherwise`.
unfoldable pub cut_behind : List ℕ → List ℕ → ℕ → ℕ
cut_behind sep window otherwise = elim (last_index sep window) [
  | some idx ↦ idx + length sep
  | none ↦ otherwise
]

-- The position of the cut that one round of the loop makes, its rules in order.
unfoldable pub find_cut : List ℕ → ℕ → ℕ
unfolding cut_behind word_cut
find_cut remaining max_len =
    let window = take max_len remaining in
    let fence_cut = last_code_fence_end window in
    let sentence_cut = last_sentence_end window in
    let sentence = if ltb 0 sentence_cut then sentence_cut else word_cut remaining max_len in
    let line = cut_behind (newline ∷ []) window sentence in
    if ltb 0 fence_cut then fence_cut else cut_behind (newline ∷ newline ∷ []) window line

-- The loop, with fuel for its rounds; `none` means that the fuel ran out.
unfoldable pub chunk_loop : ℕ → ℕ → List ℕ → Option (List (List ℕ))
chunk_loop zero max_len remaining = none
chunk_loop (suc fuel) max_len remaining = elim (ltb max_len (length remaining)) [
  | true ↦
      let cut = find_cut remaining max_len in
      elim (chunk_loop fuel max_len (drop cut remaining)) [
        | some rest ↦ some (take cut remaining ∷ rest)
        | none ↦ none
      ]
  | false ↦ some (remaining ∷ [])
]

-- `maxLen` is an int in the source; a negative one is treated as 0.
unfoldable pub chunk_message : List ℕ → ℕ → Option (List (List ℕ))
unfolding chunk_loop
chunk_message text max_len =
    if max_len == 0
    then some (text ∷ [])
    else if leb (length text) max_len
    then some (text ∷ [])
    else chunk_loop (length text + 1) max_len text
