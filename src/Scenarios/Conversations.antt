-- ===== src/Scenarios/Conversations.antt =====
-- A conversation of six messages that does not fit, and two actions in a detector.
use famclaw.Prelude.{◌≤◌, ◌≡◌, refl, ◌↔◌, String, List, [], ◌∷◌}
use mathlib.Core.List.{Sublistᴰ}
use mathlib.Core.List.Sublistᴰ as Sub
use famclaw.Compress as C
use famclaw.Compress.{
  simple_estimate, truncate, content_parts_tokens, message_tokens, masked_total, drop_pass,
  kept_messages, protected_messages, mark_protected, total_tokens,
}
use famclaw.Compress.Truncation.{IsTruncation, truncate-IsTruncation}
use famclaw.Agentcore.Turn.{Role, system, user, assistant, tool, Message}
use famclaw.Agentcore.Bridge.{llm_to_compress, compress_to_llm, compress_round}
use famclaw.Agentcore.Bridge.Ordered.{Restores, compress_to_llm-Restores, compress_round-ordered}
use famclaw.Agentcore.LoopDetector.{new_action_loop_detector, nudge, stop, count}
use famclaw.Agentcore.LoopDetector.Window.{push_all, nudge-push_all}

abbrev says : Role → String → Message
says role content = record {
  role = role;
  content = content;
  content_parts = [];
  tool_calls = [];
  tool_call_id = "";
}

abbrev chat : List Message
chat =
    says system "Be kind."
    ∷ says user "What is the weather in Lisbon?"
    ∷ says tool "A very long page about the weather in Lisbon."
    ∷ says user "And tomorrow?"
    ∷ says assistant "Sunny."
    ∷ says user "Thanks!"
    ∷ []

unfoldable messages : List C.Message
unfolding llm_to_compress
messages = llm_to_compress chat

-- The answer to the first question is dropped.
abbrev shorter : List Message
shorter = says system "Be kind." ∷ says assistant "Sunny." ∷ []

truncate-IsTruncation_example :
    IsTruncation simple_estimate 40 messages (truncate simple_estimate messages 40)
truncate-IsTruncation_example = truncate-IsTruncation simple_estimate messages 40

compress_round-ordered_example : Sublistᴰ (compress_round 60 chat) chat
compress_round-ordered_example = compress_round-ordered 60 chat

shorter-Sublistᴰ : Sublistᴰ (llm_to_compress shorter) (llm_to_compress chat)
unfolding llm_to_compress
shorter-Sublistᴰ =
    Sub.cons-cons refl (Sub.cons (Sub.cons (Sub.cons (Sub.cons-cons refl (Sub.nil-sublist _)))))

compress_to_llm-Restores_example :
    Restores (llm_to_compress shorter) chat (compress_to_llm (llm_to_compress shorter) chat)
compress_to_llm-Restores_example =
    compress_to_llm-Restores (llm_to_compress shorter) chat shorter-Sublistᴰ

nudge-push_all_example :
    (nudge (push_all ("a" ∷ "b" ∷ "a" ∷ []) (new_action_loop_detector 2)) ≡ stop)
    ↔ ((h : String) × (12 ≤ count h ("b" ∷ "a" ∷ [])))
nudge-push_all_example = nudge-push_all 2 ("a" ∷ "b" ∷ "a" ∷ [])
