-- ===== src/Resilient/Fallbacks.antt =====
-- crates/workflow_engine/src/llm_resilient.rs: which providers get to see a request.
use tianshu_rs.Base.{
  ℕ, ◌-◌, ◌<◌, ◌≡◌, refl, ◌∙◌, ◌*◌, ◌^◌, min, arith, some, List, [], ◌∷◌, ◌++◌, Result, ok, err,
  Error, drop, ap,
}
use tianshu_rs.Llm.{LlmRequest, LlmResponse, LlmProvider}
use tianshu_rs.Retry.{
  transient, provider_overloaded, max_output_tokens, class_eq, Outcome, with_retry,
}
use tianshu_rs.Resilient.{
  ResilientLlmProvider, attempt, first_ok, escalated, recover, complete, max_tokens_ceiling,
}

module _ {Json Float W : Type 0} where
  -- every provider of the list fails on the request, one after the other from `w` to `w'`
  pub data AllFail (request : LlmRequest Json Float)
      : List (LlmProvider Json Float W) → W → W → Type 0 where
    no_more : {w : W} → AllFail request [] w w
    one_more :
        {p : LlmProvider Json Float W} {ps : List (LlmProvider Json Float W)} {w w' w'' : W}
        (e : Error)
        → p request w ≡ (err e, w')
        → AllFail request ps w' w''
        → AllFail request (p ∷ ps) w w''

  first_ok-AllFail :
      (request : LlmRequest Json Float) (last : Result LlmResponse)
      {ps : List (LlmProvider Json Float W)} (qs : List (LlmProvider Json Float W)) {w w' : W}
      → AllFail request ps w w'
      → first_ok (ps ++ qs) request last w ≡ first_ok qs request last w'
  unfolding first_ok
  first_ok-AllFail request last qs no_more = refl
  first_ok-AllFail request last qs (one_more {p = p} {w = w} e h rest) =
      ground (arith, first_ok-AllFail request last qs rest)

  first_ok_last :
      (request : LlmRequest Json Float) (last : Result LlmResponse)
      {ps : List (LlmProvider Json Float W)} {w w' : W}
      → AllFail request ps w w'
      → first_ok ps request last w ≡ (last, w')
  unfolding first_ok
  first_ok_last request last no_more = refl
  first_ok_last request last (one_more e h rest) = ground (arith, first_ok_last request last rest)

  first_ok_answers :
      (request : LlmRequest Json Float) (last : Result LlmResponse)
      (answering : LlmProvider Json Float W) (later : List (LlmProvider Json Float W))
      (resp : LlmResponse) (w w' : W)
      → answering request w ≡ (ok resp, w')
      → first_ok (answering ∷ later) request last w ≡ (ok resp, w')
  unfolding first_ok
  first_ok_answers request last answering later resp w w' a = ground arith

  module _ (scale : ℕ → Float → ℕ → ℕ) (p : ResilientLlmProvider Json Float W)
      (request : LlmRequest Json Float) (w : W) where
    -- the outcome of the retry loop in `complete`
    abbrev looped : Outcome LlmResponse W
    looped = with_retry scale p.retry_policy (attempt p request) w

    -- When the attempts end with an overloaded provider, the fallbacks behind the first
    -- `max_attempts - 1` are asked in their order: where those before one of them fail and it
    -- answers, its answer is the result.
    pub complete_from_fallback :
        (e : Error) (failing later : List (LlmProvider Json Float W))
        (answering : LlmProvider Json Float W) (resp : LlmResponse) (w' w'' : W)
        → looped.result ≡ err e
        → p.retry_policy.classify e ≡ provider_overloaded
        → drop (p.retry_policy.max_attempts - 1) p.fallbacks ≡ failing ++ answering ∷ later
        → AllFail request failing looped.world w'
        → answering request w' ≡ (ok resp, w'')
        → complete scale p request w ≡ (ok resp, w'')
    unfolding complete
    complete_from_fallback e failing later answering resp w' w'' h c d fail a =
        rw (h, complete)
          (rw (c, recover)
            (rw d (
              first_ok-AllFail request (err e) (answering ∷ later) fail
              ∙ first_ok_answers request (err e) answering later resp w' w'' a)))

    -- When the attempts end with an overloaded provider, and the fallbacks behind the first
    -- `max_attempts - 1` all fail, or there is none, the result is the error of the loop.
    pub complete_exhausted :
        (e : Error) (w' : W)
        → looped.result ≡ err e
        → p.retry_policy.classify e ≡ provider_overloaded
        → AllFail request (drop (p.retry_policy.max_attempts - 1) p.fallbacks) looped.world w'
        → complete scale p request w ≡ (err e, w')
    unfolding complete
    complete_exhausted e w' h c fail =
        rw (h, complete) (rw (c, recover) (first_ok_last request (err e) fail))

    -- When the attempts end because the answer was cut at `max_tokens`, the primary provider is
    -- asked once more, with a limit that is twice the old one (4096 for none), and no more than
    -- 128000. The old limit is below `2 ^ 31`.
    pub complete_escalates :
        (e : Error) (n : ℕ)
        → looped.result ≡ err e
        → p.retry_policy.classify e ≡ max_output_tokens
        → request.max_tokens ≡ some n
        → n < 2 ^ 31
        → complete scale p request w
          ≡ p.primary
              (record request { max_tokens = some (min (n * 2) max_tokens_ceiling) })
              looped.world
    unfolding complete escalated
    complete_escalates e n h c m lt =
        rw (h, complete)
          (rw (c, recover)
            (ap
              (λ k.
                p.primary (record request { max_tokens = some (min k max_tokens_ceiling) })
                  looped.world)
              (rw m (omega arith))))

  -- A fallback can be passed over: with three attempts, a first error that is not an overload and
  -- overloads after it, the first of two fallbacks is never asked, whatever it would answer.
  pub first_fallback_skipped :
      (scale : ℕ → Float → ℕ → ℕ) (p : ResilientLlmProvider Json Float W)
      (request : LlmRequest Json Float) (first second : LlmProvider Json Float W) (e₀ e₁ e₂ : Error)
      (w₀ w₁ w₂ w₃ : W)
      → p.fallbacks ≡ first ∷ second ∷ []
      → p.retry_policy.max_attempts ≡ 3
      → p.primary request w₀ ≡ (err e₀, w₁)
      → p.retry_policy.classify e₀ ≡ transient
      → p.primary request w₁ ≡ (err e₁, w₂)
      → p.retry_policy.classify e₁ ≡ provider_overloaded
      → second request w₂ ≡ (err e₂, w₃)
      → p.retry_policy.classify e₂ ≡ provider_overloaded
      → complete scale p request w₀ ≡ (err e₂, w₃)
  unfolding complete with_retry attempt first_ok
  first_fallback_skipped scale p request first second e₀ e₁ e₂ w₀ w₁ w₂ w₃ fb m p₀ c₀ p₁ c₁ s c₂ =
      ground arith
