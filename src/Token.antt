-- ===== src/Token.antt =====
-- crates/workflow_engine/src/token.rs. The length of a text is that of its UTF-8 bytes; a sum of
-- `u32` wraps, as in a release build. `compact_threshold` is an `f64`.
use Prim.Native.Char.{code}
use tianshu_rs.Base.{ℕ, ◌+◌, ◌/◌, ◌%◌, ◌^◌, String, List, [], ◌∷◌, if◌then◌else◌, ltb, max}
use tianshu_rs.Llm.{LlmMessage}

pub record TokenCounter : Type 0 where
  pub count_messages : List LlmMessage → ℕ
  pub count_text : String → ℕ

utf8_width : ℕ → ℕ
utf8_width c = if ltb c 0x80 then 1 else if ltb c 0x800 then 2 else if ltb c 0x10000 then 3 else 4

-- `str::len`
unfoldable pub byte_len : String → ℕ
unfolding utf8_width
byte_len String.[] = 0
byte_len (String.◌∷◌ c s) = utf8_width (code c) + byte_len s

unfoldable pub count_text : String → ℕ
unfolding byte_len
count_text text = max ((byte_len text % 2 ^ 32) / 4) 1

unfoldable pub count_messages : List LlmMessage → ℕ
unfolding count_text
count_messages [] = 0
count_messages (m ∷ messages) = (count_text m.content + count_messages messages) % 2 ^ 32

abbrev pub char_token_counter : TokenCounter
char_token_counter = record { count_messages = count_messages; count_text = count_text }

pub record ContextConfig (Float : Type 0) : Type 0 where
  pub max_input_tokens : ℕ
  pub compact_threshold : Float
  pub max_output_tokens : ℕ

-- `threshold` is the `f64` 0.85
unfoldable pub default_config : {Float : Type 0} (threshold : Float) → ContextConfig Float
default_config threshold = record {
  max_input_tokens = 128_000;
  compact_threshold = threshold;
  max_output_tokens = 8_192;
}
