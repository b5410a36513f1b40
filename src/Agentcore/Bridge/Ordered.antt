-- ===== src/Agentcore/Bridge/Ordered.antt =====
-- What the bridge returns from a compression that only drops messages.
use famclaw.Prelude.{
  ℕ, ◌≡◌, refl, sym, inl, inr, Bool, true, false, String, some, List, [], ◌∷◌, if◌then◌else◌,
  Bool-cases,
}
use mathlib.Core.List.{Sublistᴰ}
use mathlib.Core.List.Sublistᴰ as Sub
use famclaw.Prelude.Text.{eq_refl}
use mathlib.Core.Path.{subst}
use famclaw.Compress as C
use famclaw.Compress.{compress, simple_estimate, total_tokens, truncate}
use famclaw.Compress.Truncation.{truncate-IsTruncation}
use famclaw.Agentcore.Turn.{Message}
use famclaw.Agentcore.Bridge.{
  role_name, llm_to_compress, to_compress, matches, find_match, compress_to_llm, compress_round,
}

-- The messages stand for the compressed ones, one by one, with their roles and their contents.
pub data StandFor : List C.Message → List Message → Type 0 where
  none_left : StandFor [] []
  next :
      {c : C.Message} {m : Message} {cs : List C.Message} {msgs : List Message}
      → matches c m ≡ true
      → StandFor cs msgs
      → StandFor (c ∷ cs) (m ∷ msgs)

-- What the search finds first leaves the rest of the sublist behind it.
record Found (c : C.Message) (cs : List C.Message) (orig : List Message) : Type 0 where
  message : Message
  rest : List Message
  found : find_match c orig ≡ some (message, rest)
  match : matches c message ≡ true
  behind : Sublistᴰ cs (llm_to_compress rest)
  lift : (l : List Message) → Sublistᴰ l rest → Sublistᴰ (message ∷ l) orig

matches_self : (m : Message) → matches (to_compress m) m ≡ true
unfolding matches
matches_self m = rw (eq_refl (role_name m.role), eq_refl m.content) refl

tail_sublist : (c : C.Message) (cs l : List C.Message) → Sublistᴰ (c ∷ cs) l → Sublistᴰ cs l
tail_sublist c cs [] h = elim h [ ]
tail_sublist c cs (b ∷ l) (Sub.cons h) = Sub.cons (tail_sublist c cs l h)
tail_sublist c cs (b ∷ l) (Sub.cons-cons e h) = Sub.cons h

Found-here :
    (c : C.Message) (cs : List C.Message) (m : Message) (orig : List Message)
    → matches c m ≡ true
    → Sublistᴰ cs (llm_to_compress orig)
    → Found c cs (m ∷ orig)
unfolding find_match
Found-here c cs m orig e h = record {
  message = m;
  rest = orig;
  found = rw e refl;
  match = e;
  behind = h;
  lift = λ l k. Sub.cons-cons refl k;
}

Found-later :
    (c : C.Message) (cs : List C.Message) (m : Message) (orig : List Message)
    → matches c m ≡ false
    → Found c cs orig
    → Found c cs (m ∷ orig)
unfolding find_match
Found-later c cs m orig e f = record {
  message = f.message;
  rest = f.rest;
  found = rw e f.found;
  match = f.match;
  behind = f.behind;
  lift = λ l k. Sub.cons (f.lift l k);
}

find_match-Found :
    (c : C.Message) (cs : List C.Message) (orig : List Message)
    → Sublistᴰ (c ∷ cs) (llm_to_compress orig)
    → Found c cs orig
unfolding llm_to_compress
find_match-Found c cs [] h = elim h [ ]
find_match-Found c cs (m ∷ orig) (Sub.cons h) = elim (Bool-cases (matches c m)) [
  | inl e ↦ Found-here c cs m orig e (tail_sublist c cs _ h)
  | inr e ↦ Found-later c cs m orig e (find_match-Found c cs orig h)
]
find_match-Found c cs (m ∷ orig) (Sub.cons-cons e h) =
    Found-here c cs m orig (subst (λ k. matches k m ≡ true) (sym e) (matches_self m)) h

-- Some of the original messages in their order, with all that they hold, which stand for the
-- compressed ones.
pub record Restores (cs : List C.Message) (orig result : List Message) : Type 0 where
  pub ordered : Sublistᴰ result orig
  pub same : StandFor cs result

-- If the compression only dropped messages, the bridge returns messages of the original
-- conversation in their order, one for each that is left, with its role and its content.
pub compress_to_llm-Restores :
    (cs : List C.Message) (orig : List Message)
    → Sublistᴰ cs (llm_to_compress orig)
    → Restores cs orig (compress_to_llm cs orig)
unfolding compress_to_llm
compress_to_llm-Restores [] orig h = record { ordered = Sub.nil-sublist orig; same = none_left }
compress_to_llm-Restores (c ∷ cs) orig h =
    let f = find_match-Found c cs orig h in
    let r = compress_to_llm-Restores cs f.rest f.behind in
    rw (f.found, compress_to_llm)
      (record { ordered = f.lift _ r.ordered; same = next f.match r.same })

Sublist-if :
    (b : Bool) (l k messages : List C.Message)
    → Sublistᴰ l messages
    → Sublistᴰ k messages
    → Sublistᴰ (if b then l else k) messages
Sublist-if true l k messages h g = h
Sublist-if false l k messages h g = g

ordered-compress :
    (estimate : String → ℕ) (window margin : ℕ) (messages : List C.Message)
    → Sublistᴰ (compress estimate window margin messages) messages
unfolding compress
ordered-compress estimate window margin messages =
    Sublist-if _ messages _ messages (Sub.refl messages)
      (truncate-IsTruncation estimate messages _).ordered

-- The compression between two rounds of the tool loop keeps some of the messages in their order,
-- each with its tool calls and its tool call id.
pub compress_round-ordered :
    (context_window : ℕ) (msgs : List Message) → Sublistᴰ (compress_round context_window msgs) msgs
unfolding compress_round
compress_round-ordered context_window msgs =
    (compress_to_llm-Restores _ msgs
      (ordered-compress simple_estimate context_window 0 (llm_to_compress msgs))).ordered
