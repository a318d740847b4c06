-- ===== src/Retry/Tests.antt =====
-- The retry loop at concrete inputs. A delay's factor is a natural number here.
use tianshu_rs.Base.{
  ℕ, zero, suc, ◌+◌, ◌*◌, ◌^◌, ◌≤◌, String, none, [], ◌∷◌, Result, ok, err, Error, ◌≡◌, refl, All,
  length, ◌≢◌, arith, max,
}
use tianshu_rs.Retry.{
  transient, fatal, class_beq_iff, RetryContext, RetryPolicy, default_transient, with_retry,
  retry_from, delay,
}
use tianshu_rs.Retry.Loop.{Retries, with_retry-Retries, with_retry_bounds, with_retry_exhausts}

abbrev scale : ℕ → ℕ → ℕ → ℕ
scale base factor attempt = base * factor ^ attempt

abbrev policy : RetryPolicy ℕ
policy = default_transient 2

abbrev busy : Error
busy = record { message = "busy" }

-- The service is busy for the calls that the state counts down.
abbrev service : RetryContext → ℕ → Result String × ℕ
service ctx zero = (ok "answer", 0)
service ctx (suc n) = (err busy, n)

with_retry-Retries_example :
    Retries scale policy service 0 none 2
      (with_retry scale policy service 2).result
      (with_retry scale policy service 2).world
      (with_retry scale policy service 2).delays
with_retry-Retries_example = with_retry-Retries scale policy service 2

-- the same service, which counts the calls too
abbrev counting : RetryContext → ℕ × ℕ → Result String × (ℕ × ℕ)
counting ctx (zero, calls) = (ok "answer", (0, calls + 1))
counting ctx (suc n, calls) = (err busy, (n, calls + 1))

counted : (ctx : RetryContext) (w : ℕ × ℕ) → (counting ctx w).1.1 ≡ w.1 + 1
counted ctx (zero, calls) = refl
counted ctx (suc n, calls) = refl

with_retry_bounds_example :
    ((with_retry scale policy counting (7, 0)).world.1
      ≡ 0 + length (with_retry scale policy counting (7, 0)).delays + 1)
    × ((with_retry scale policy counting (7, 0)).world.1 ≤ 0 + 3)
    × All (λ d. d ≤ 2_000) (with_retry scale policy counting (7, 0)).delays
unfolding default_transient
with_retry_bounds_example = with_retry_bounds scale policy counting (λ w. w.1) counted (7, 0)

not_fatal : policy.classify busy ≢ fatal
unfolding default_transient
not_fatal e = absurd (ground (arith, class_beq_iff transient fatal, e))

with_retry_exhausts_example : (with_retry scale policy counting (7, 0)).world.1 ≡ 0 + max 1 3
unfolding default_transient with_retry retry_from delay
with_retry_exhausts_example =
    with_retry_exhausts scale policy counting (λ w. w.1) counted (7, 0) busy refl not_fatal

two_retries :
    with_retry scale policy service 2
    ≡ record { result = ok "answer"; world = 0; delays = 100 ∷ 200 ∷ [] }
unfolding with_retry retry_from delay default_transient
two_retries = refl
