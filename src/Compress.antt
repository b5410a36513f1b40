-- ===== src/Compress.antt =====
-- Context compression (internal/compress). The budget is computed in integers, in hundredths of the
-- window, and a negative margin, which the source takes for 0, is not modelled.
pub mod Truncation
use Prim.Native.String.{len}
use famclaw.Prelude.Text.{byte_length}
use famclaw.Prelude.{
  ℕ, suc, ◌+◌, ◌-◌, ◌*◌, ◌/◌, Bool, true, false, not, ◌&&◌, ◌||◌, String, List, [], ◌∷◌, ltb, leb,
  ◌==◌, if◌then◌else◌, length,
}

-- A content part, by its `type`; what has neither type counts nothing.
pub data Part : Type 0 where
  text_part : String → Part
  image_part other_part : Part

pub record Message : Type 0 where
  pub role : String
  pub content : String
  pub content_parts : List Part
  pub pinned : Bool
  pub prunable : Bool

-- `SimpleEstimator.Estimate`
unfoldable pub simple_estimate : String → ℕ
unfolding byte_length
simple_estimate text = if byte_length text == 0 then 0 else (byte_length text + 4 - 1) / 4

-- A message with its entries of `protected` and `keepMask`.
pub record Entry : Type 0 where
  pub message : Message
  pub protected : Bool
  pub keep : Bool

abbrev pub skips_prunable : Entry → Bool
skips_prunable e = e.protected || not e.message.prunable

abbrev pub skips_kept : Entry → Bool
skips_kept e = e.protected || not e.keep

-- The messages from index `i` on, of `n` in all, none dropped yet.
unfoldable pub mark_protected : ℕ → ℕ → List Message → List Entry
mark_protected n i [] = []
mark_protected n i (m ∷ messages) =
    record { message = m; protected = i == 0 || leb (n - 3) i || m.pinned; keep = true }
    ∷ mark_protected n (suc i) messages

unfoldable pub kept_messages : List Entry → List Message
kept_messages [] = []
kept_messages (e ∷ entries) =
    let rest = kept_messages entries in if e.keep then e.message ∷ rest else rest

unfoldable pub protected_messages : List Entry → List Message
protected_messages [] = []
protected_messages (e ∷ entries) =
    let rest = protected_messages entries in if e.protected then e.message ∷ rest else rest

-- `TokenEstimator` is an interface of the source: its method is a parameter.
module _ (estimate : String → ℕ) where
  unfoldable pub content_parts_tokens : List Part → ℕ
  content_parts_tokens [] = 0
  content_parts_tokens (text_part t ∷ parts) = estimate t + content_parts_tokens parts
  content_parts_tokens (image_part ∷ parts) = 1000 + content_parts_tokens parts
  content_parts_tokens (other_part ∷ parts) = content_parts_tokens parts

  unfoldable pub message_tokens : Message → ℕ
  unfolding content_parts_tokens
  message_tokens m = estimate m.content + 4 + content_parts_tokens m.content_parts

  unfoldable pub total_tokens : List Message → ℕ
  total_tokens [] = 0
  total_tokens (m ∷ messages) = message_tokens m + total_tokens messages

  -- `currentTotalWithMask`
  unfoldable pub masked_total : List Entry → ℕ
  masked_total [] = 0
  masked_total (e ∷ entries) =
      (if e.keep then message_tokens e.message else 0) + masked_total entries

  -- One of the two dropping loops: `skip` is the test of its `continue`, and `before` the masked
  -- total of the entries that it has passed.
  unfoldable pub drop_pass : (Entry → Bool) → ℕ → ℕ → List Entry → List Entry
  unfolding masked_total
  drop_pass skip budget before [] = []
  drop_pass skip budget before (e ∷ entries) =
      let passed = if e.keep then message_tokens e.message else 0 in
      let skipped = drop_pass skip budget (before + passed) entries in
      let dropped = drop_pass skip budget before entries in
      if skip e
      then e ∷ skipped
      else if leb (before + masked_total (e ∷ entries)) budget
      then e ∷ entries
      else record e { keep = false } ∷ dropped

  unfoldable pub truncate : List Message → ℕ → List Message
  truncate messages budget =
      if leb (length messages) 4
      then messages
      else (let pass1 =
            drop_pass skips_prunable budget 0 (mark_protected (length messages) 0 messages) in
          let pass2 = drop_pass skips_kept budget 0 pass1 in
          if ltb budget (masked_total pass2) then protected_messages pass2 else kept_messages pass2)

  -- `margin` is in hundredths; the default of 15 stands for 0.
  unfoldable pub compress : ℕ → ℕ → List Message → List Message
  compress context_window margin messages =
      let window = if context_window == 0 then 4096 else context_window in
      let default = if margin == 0 then 15 else margin in
      let percent = if leb 100 default then 99 else default in
      let budget = window * 85 / 100 * (100 - percent) / 100 in
      if leb (total_tokens messages) budget then messages else truncate messages budget
