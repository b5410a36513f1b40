-- ===== src/Store/Conversation.antt =====
-- The id of a conversation (ConversationID). The hash that makes a fresh one is given.
use famclaw.Prelude.{ℕ, ◌+◌, ◌*◌, Bool, not, ◌&&◌, String, ltb, ◌==◌, if◌then◌else◌}
use famclaw.Prelude.Text.{str_eq}

abbrev pub conversation_idle_timeout : ℕ
conversation_idle_timeout = 6 * 3600

unfoldable pub conversation_id :
    (String → ℕ → String)
    → String
    → (last_msg : ℕ) → (has_last : Bool) → (last_conv_id : String) → (now : ℕ) → String
conversation_id fresh user last_msg has_last last_conv_id now =
    if has_last
      && not (last_msg == 0)
      && ltb now (last_msg + conversation_idle_timeout)
      && not (str_eq last_conv_id "")
    then last_conv_id
    else fresh user now
