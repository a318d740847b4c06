-- ===== src/Resilient.antt =====
-- crates/workflow_engine/src/llm_resilient.rs: a provider with retries, fallback providers and an
-- escalation of `max_tokens`. A product of two `u32` wraps, as in a release build.
pub mod Fallbacks
mod Tests
use tianshu_rs.Base.{
  ℕ, ◌+◌, ◌-◌, ◌*◌, ◌%◌, ◌^◌, Bool, true, false, ◌&&◌, Option, none, some, List, [], ◌∷◌, ◌++◌,
  Result, ok, err, Error, ◌==◌, if◌then◌else◌, ltb, min, length, drop, get_elem?,
}
use tianshu_rs.Llm.{LlmRequest, LlmResponse, LlmProvider}
use tianshu_rs.Retry.{
  ErrorClass, transient, prompt_too_long, max_output_tokens, provider_overloaded, fatal, class_eq,
  RetryContext, RetryPolicy, Outcome, with_retry,
}

abbrev pub max_tokens_ceiling : ℕ
max_tokens_ceiling = 128_000

module _ (Json Float W : Type 0) where
  pub record ResilientLlmProvider : Type 0 where
    pub primary : LlmProvider Json Float W
    pub fallbacks : List (LlmProvider Json Float W)
    pub retry_policy : RetryPolicy Float
    pub on_prompt_too_long : Option (LlmRequest Json Float → LlmRequest Json Float)

abbrev overloaded_before : Option ErrorClass → Bool
overloaded_before none = false
overloaded_before (some c) = c == provider_overloaded

abbrev or_4096 : Option ℕ → ℕ
or_4096 none = 4_096
or_4096 (some n) = n

unfoldable pub escalated : {Json Float : Type 0} → LlmRequest Json Float → LlmRequest Json Float
escalated request = record request {
  max_tokens = some (min ((or_4096 request.max_tokens * 2) % 2 ^ 32) max_tokens_ceiling);
}

module _ {Json Float W : Type 0} where
  unfoldable pub with_fallback :
      ResilientLlmProvider Json Float W
      → LlmProvider Json Float W
      → ResilientLlmProvider Json Float W
  with_fallback p fallback = record p { fallbacks = p.fallbacks ++ fallback ∷ [] }

  unfoldable pub with_prompt_too_long_handler :
      ResilientLlmProvider Json Float W
      → (LlmRequest Json Float → LlmRequest Json Float)
      → ResilientLlmProvider Json Float W
  with_prompt_too_long_handler p handler = record p { on_prompt_too_long = some handler }

  -- `fallbacks[i]` if there is one, and otherwise the primary provider
  abbrev fallback_or :
      LlmProvider Json Float W → Option (LlmProvider Json Float W) → LlmProvider Json Float W
  fallback_or primary none = primary
  fallback_or primary (some fallback) = fallback

  -- the closure that `complete` gives to `with_retry`
  unfoldable pub attempt :
      ResilientLlmProvider Json Float W
      → LlmRequest Json Float
      → RetryContext
      → W
      → Result LlmResponse × W
  attempt p request ctx =
      if overloaded_before ctx.last_error_class
      then fallback_or p.primary (get_elem? p.fallbacks (ctx.attempt - 1)) request
      else p.primary request

  -- `for fb in … { if let Ok(resp) = fb.complete(…).await { return Ok(resp) } }`, and `last` after
  unfoldable pub first_ok :
      List (LlmProvider Json Float W)
      → LlmRequest Json Float
      → Result LlmResponse
      → W
      → Result LlmResponse × W
  first_ok [] request last w = (last, w)
  first_ok (fallback ∷ rest) request last w =
      let (r, w') = fallback request w in
      elim r [ ok resp ↦ (ok resp, w') | err e ↦ first_ok rest request last w' ]

  -- what `complete` does with an error of the loop, by its class
  unfoldable pub recover :
      ResilientLlmProvider Json Float W → LlmRequest Json Float → Error → W → Result LlmResponse × W
  unfolding first_ok escalated
  recover p request e w = elim (p.retry_policy.classify e) [
    | provider_overloaded ↦
        first_ok (drop (p.retry_policy.max_attempts - 1) p.fallbacks) request (err e) w
    | max_output_tokens ↦ p.primary (escalated request) w
    | prompt_too_long ↦ elim p.on_prompt_too_long [
      | some handler ↦ p.primary (handler request) w
      | none ↦ (err e, w)
    ]
    | _ ↦ (err e, w)
  ]

  unfoldable pub complete :
      (scale : ℕ → Float → ℕ → ℕ) → ResilientLlmProvider Json Float W → LlmProvider Json Float W
  unfolding recover
  complete scale p request w =
      let o = with_retry scale p.retry_policy (attempt p request) w in
      elim o.result [ ok resp ↦ (ok resp, o.world) | err e ↦ recover p request e o.world ]
