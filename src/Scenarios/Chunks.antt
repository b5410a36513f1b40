-- ===== src/Scenarios/Chunks.antt =====
-- A text of two sentences in chunks of at most eight bytes.
use famclaw.Prelude.{ℕ, ◌≡◌, refl, some, List, [], ◌∷◌, arith}
use famclaw.Prelude.Text.{codes, has_prefix, last_index}
use famclaw.Gateway.Chunk.{
  byte_at, count_from, last_code_fence_end, separator_step, terminator_step, last_sentence_end,
  rune_start, rune_cut, word_cut, cut_behind, find_cut, chunk_loop, chunk_message,
}
use famclaw.Gateway.Chunk.Reassembly.{Splits, chunk_message-Splits}

abbrev greeting : List ℕ
greeting = codes "Hi. How are you?"

chunk_message-Splits_example :
    (chunks : List (List ℕ)) × (chunk_message greeting 8 ≡ some chunks) × Splits 8 greeting chunks
chunk_message-Splits_example = chunk_message-Splits greeting 8 (omega arith) (omega arith)

greeting_chunks :
    chunk_message greeting 8 ≡ some (codes "Hi. " ∷ codes "How are " ∷ codes "you?" ∷ [])
unfolding byte_at count_from last_code_fence_end separator_step terminator_step last_sentence_end
    rune_start rune_cut word_cut cut_behind find_cut chunk_loop chunk_message has_prefix last_index
greeting_chunks = refl
