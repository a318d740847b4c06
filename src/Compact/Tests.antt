-- ===== src/Compact/Tests.antt =====
-- A conversation of four messages.
use tianshu_rs.Base.{
  ℕ, String, List, [], ◌∷◌, ◌≡◌, ◌≤◌, ◌<◌, ◌+◌, none, refl, min, length, drop, arith, true, false,
  ok, ◌⊎◌, ◌*◌, ◌/◌,
}
use tianshu_rs.Llm.{LlmMessage}
use tianshu_rs.Token
use tianshu_rs.Token.{char_token_counter, ContextConfig}
use tianshu_rs.Compact.{
  ManagedConversation, truncate, suffix_start, compact_by_truncation, compact_if_needed,
  estimated_tokens,
}
use tianshu_rs.Compact.Truncation.{
  IsSummed, IsLongest, char_token_counter-IsSummed, truncate-IsLongest, tokens,
}
use tianshu_rs.Compact.Managed.{compact_if_needed_truncates}

abbrev message : String → LlmMessage
message text = record { role = "user"; content = text; tool_calls = none; tool_call_id = none }

abbrev messages : List LlmMessage
messages =
    message "the first message"
    ∷ message "a second one"
    ∷ message "the third message of all"
    ∷ message "last"
    ∷ []

messages-IsSummed : IsSummed char_token_counter messages
unfolding Token.count_text
messages-IsSummed = char_token_counter-IsSummed messages (omega arith)

truncate-IsLongest_example :
    (n : ℕ) × (truncate 1 messages 5 char_token_counter ≡ drop n messages)
    × (n + min 1 (length messages) ≤ length messages)
    × ((5 ≤ tokens char_token_counter (drop (suffix_start 1 messages) messages))
          × (n ≡ suffix_start 1 messages)
        ⊎ IsLongest char_token_counter messages 5 n)
truncate-IsLongest_example = truncate-IsLongest char_token_counter 1 5 messages messages-IsSummed

abbrev config : ContextConfig ℕ
config = record { max_input_tokens = 10; compact_threshold = 85; max_output_tokens = 8 }

abbrev conversation : ManagedConversation ℕ ℕ
conversation = record {
  messages = messages;
  config = config;
  counter = char_token_counter;
  strategy = compact_by_truncation (record { preserve_recent = 1 });
}

-- an integer percentage in place of the `f64` factor
abbrev scaled : ℕ → ℕ → ℕ
scaled n x = n * x / 100

abbrev target : ℕ → ℕ → ℕ
target n x = n * x * 7 / 1000

compact_if_needed_truncates_example :
    let r = compact_if_needed scaled target conversation 0 in
    (estimated_tokens conversation ≤ 8) × (r ≡ (ok false, conversation, 0))
    ⊎ (8 < estimated_tokens conversation)
      × (n : ℕ) × (r ≡ (ok true, record conversation { messages = drop n messages }, 0))
      × (n + min 1 (length messages) ≤ length messages)
      × ((estimated_tokens (record conversation { messages = drop n messages }) ≤ 5)
          ⊎ (n + min 1 (length messages) ≡ length messages))
compact_if_needed_truncates_example =
    compact_if_needed_truncates scaled target (record { preserve_recent = 1 }) conversation 0 refl
      messages-IsSummed
