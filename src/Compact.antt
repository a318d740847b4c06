-- ===== src/Compact.antt =====
-- crates/workflow_engine/src/compact.rs. A strategy may ask a model, which changes the state `W`.
-- `scaled n x` and `target n x` are the `f64` products `(n as f64 * x) as u32` and
-- `(n as f64 * x * 0.7) as u32`.
pub mod Truncation
pub mod Managed
mod Tests
use tianshu_rs.Base.{
  ℕ, zero, suc, ◌-◌, Bool, true, false, Option, none, some, List, [], ◌∷◌, ◌++◌, String, Result, ok,
  err, if◌then◌else◌, ltb, leb, min, length, take, drop, get_elem?, format, eqb,
}
use tianshu_rs.Base.Exec.{Exec}
use tianshu_rs.Llm.{LlmMessage, LlmRequest, LlmResponse, LlmProvider}
use tianshu_rs.Token.{TokenCounter, ContextConfig}

-- messages, target and counter
abbrev pub CompactionStrategy : Type 0 → Type 0
CompactionStrategy W = List LlmMessage → ℕ → TokenCounter → W → Result (List LlmMessage) × W

pub record TruncationCompaction : Type 0 where
  pub preserve_recent : ℕ

abbrev pub content_of : Option LlmMessage → String
content_of none = ""
content_of (some m) = m.content

-- `for i in (0..i).rev()`: what is left of the budget, and the first message that is kept
unfoldable pub keep_from : TokenCounter → List LlmMessage → (i budget : ℕ) → ℕ
keep_from counter messages zero budget = 0
keep_from counter messages (suc i) budget =
    let msg_tokens = counter.count_text (content_of (get_elem? messages i)) in
    let earlier = keep_from counter messages i (budget - msg_tokens) in
    if ltb budget msg_tokens then suc i else earlier

-- where the messages that are always kept begin
abbrev pub suffix_start : ℕ → List LlmMessage → ℕ
suffix_start preserve_recent messages = length messages - min preserve_recent (length messages)

unfoldable pub truncate : ℕ → List LlmMessage → ℕ → TokenCounter → List LlmMessage
unfolding keep_from
truncate preserve_recent messages target_tokens counter =
    let start = suffix_start preserve_recent messages in
    let suffix = drop start messages in
    let suffix_tokens = counter.count_messages suffix in
    if leb target_tokens suffix_tokens
    then suffix
    else drop (keep_from counter messages start (target_tokens - suffix_tokens)) messages

unfoldable pub compact_by_truncation : {W : Type 0} → TruncationCompaction → CompactionStrategy W
compact_by_truncation t messages target_tokens counter w =
    (ok (truncate t.preserve_recent messages target_tokens counter), w)

module _ (Json Float W : Type 0) where
  pub record LlmSummaryCompaction : Type 0 where
    pub llm : LlmProvider Json Float W
    pub model : String
    pub preserve_recent : ℕ

abbrev pub with_summary : List LlmMessage → Result LlmResponse → Result (List LlmMessage)
with_summary suffix (err e) = err e
with_summary suffix (ok response) = ok (
    record {
      role = "system";
      content = format ("[Conversation summary]: " ∷ response.content ∷ []);
      tool_calls = none;
      tool_call_id = none;
    }
    ∷ suffix)

module _ {Json Float : Type 0} (zero_point_zero : Float) where
  -- the request for a summary of the older messages
  abbrev summary_request : String → List LlmMessage → LlmRequest Json Float
  summary_request model prefix = record {
    model = model;
    system_prompt = some "You are a conversation summarizer. Produce a brief, factual summary.";
    messages =
        prefix
        ++ record {
          role = "user";
          content = "Please provide a concise summary of the conversation above.";
          tool_calls = none;
          tool_call_id = none;
        }
          ∷ [];
    temperature = some zero_point_zero;
    max_tokens = some 1024;
    tools = none;
  }

module _ {Json Float W : Type 0} (zero_point_zero : Float) where
  unfoldable pub compact_by_summary : LlmSummaryCompaction Json Float W → CompactionStrategy W
  compact_by_summary s messages target_tokens counter w =
      let split = suffix_start s.preserve_recent messages in
      elim (eqb split 0) [
        | true ↦ (ok messages, w)
        | false ↦
            let (r, w') = s.llm (summary_request zero_point_zero s.model (take split messages)) w in
            (with_summary (drop split messages) r, w')
      ]

module _ (Float W : Type 0) where
  pub record ManagedConversation : Type 0 where
    pub messages : List LlmMessage
    pub config : ContextConfig Float
    pub counter : TokenCounter
    pub strategy : CompactionStrategy W

module _ {Float W : Type 0} where
  unfoldable pub new :
      ContextConfig Float → TokenCounter → CompactionStrategy W → ManagedConversation Float W
  new config counter strategy = record {
    messages = [];
    config = config;
    counter = counter;
    strategy = strategy;
  }

  unfoldable pub push : ManagedConversation Float W → LlmMessage → ManagedConversation Float W
  push c message = record c { messages = c.messages ++ message ∷ [] }

  unfoldable pub estimated_tokens : ManagedConversation Float W → ℕ
  estimated_tokens c = c.counter.count_messages c.messages

module _ {Float W : Type 0} (scaled target : ℕ → Float → ℕ) where
  abbrev adopt :
      ManagedConversation Float W
      → Result (List LlmMessage) × W
      → Result (Unit {0}) × ManagedConversation Float W × W
  adopt c (err e, w) = (err e, c, w)
  adopt c (ok compacted, w) = (ok tt, record c { messages = compacted }, w)

  unfoldable pub force_compact :
      ManagedConversation Float W → W → Result (Unit {0}) × ManagedConversation Float W × W
  force_compact c w = adopt c (
      c.strategy c.messages (target c.config.max_input_tokens c.config.compact_threshold) c.counter
        w)

  abbrev was_compacted :
      Result (Unit {0}) × ManagedConversation Float W × W
      → Result Bool × ManagedConversation Float W × W
  was_compacted (err e, c, w) = (err e, c, w)
  was_compacted (ok done, c, w) = (ok true, c, w)

  unfoldable pub compact_if_needed :
      ManagedConversation Float W → W → Result Bool × ManagedConversation Float W × W
  unfolding estimated_tokens force_compact
  compact_if_needed c w =
      if leb (estimated_tokens c) (scaled c.config.max_input_tokens c.config.compact_threshold)
      then (ok false, c, w)
      else was_compacted (force_compact c w)
