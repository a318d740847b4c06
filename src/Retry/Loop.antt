-- ===== src/Retry/Loop.antt =====
-- crates/workflow_engine/src/retry.rs: the loop does what its description says, within its bounds.
use tianshu_rs.Base.{
  ℕ, zero, suc, ◌+◌, ◌≤◌, ◌<◌, ◌≡◌, ◌≢◌, refl, arith, ◌⊎◌, inl, inr, true, false, Option, none,
  some, List, [], ◌∷◌, Result, ok, err, Error, max, length, All, Bool-cases, Result-cases, sym, ap,
  ◌∙◌,
}
use tianshu_rs.Retry.{
  ErrorClass, fatal, class_eq, class_beq_iff, RetryContext, RetryPolicy, Outcome, delay, retry_from,
  with_retry, stops,
}

module _ {Float : Type 0} (policy : RetryPolicy Float) (c : ErrorClass) (a : ℕ) where
  stops-true : stops policy c a ≡ true → (c ≡ fatal) ⊎ (policy.max_attempts ≤ a + 1)
  stops-true h = ground (arith, class_beq_iff c fatal)

  stops-false : stops policy c a ≡ false → (c ≢ fatal) × (a + 1 < policy.max_attempts)
  stops-false h = ground (arith, class_beq_iff c fatal)

module _ {Float T W : Type 0} (scale : ℕ → Float → ℕ → ℕ) (policy : RetryPolicy Float)
    (f : RetryContext → W → Result T × W) where
  abbrev call : ℕ → Option ErrorClass → W → Result T × W
  call a last w = f (record { attempt = a; last_error_class = last }) w

  -- `Retries a last w r w' ds`: from attempt `a` the calls end with the result `r` in the state
  -- `w'`, after sleeping `ds`.
  pub data Retries : ℕ → Option ErrorClass → W → Result T → W → List ℕ → Type 0 where
    succeeds :
        {a : ℕ} {last : Option ErrorClass} {w w' : W} (v : T)
        → call a last w ≡ (ok v, w')
        → Retries a last w (ok v) w' []
    gives_up :
        {a : ℕ} {last : Option ErrorClass} {w w' : W} (e : Error)
        → call a last w ≡ (err e, w')
        → (policy.classify e ≡ fatal) ⊎ (policy.max_attempts ≤ a + 1)
        → Retries a last w (err e) w' []
    retries :
        {a b : ℕ} {last : Option ErrorClass} {w w' w'' : W} {r : Result T} {ds : List ℕ} (e : Error)
        → call a last w ≡ (err e, w')
        → policy.classify e ≢ fatal
        → a + 1 < policy.max_attempts
        → b ≡ a + 1
        → Retries b (some (policy.classify e)) w' r w'' ds
        → Retries a last w r w'' (delay scale policy a ∷ ds)

  -- the fuel left at an attempt is what the bound on the attempts leaves
  abbrev Refines : ℕ → Option ErrorClass → W → Outcome T W → Type 0
  Refines a last w o = Retries a last w o.result o.world o.delays

  retry_from-Retries :
      (fuel a : ℕ) (last : Option ErrorClass) (w : W)
      → policy.max_attempts ≤ a + fuel
      → Refines a last w (retry_from scale policy f fuel a last w)
  unfolding retry_from
  retry_from-Retries zero a last w h =
      let w' = (call a last w).1 in
      elim (Result-cases (call a last w).0) [
        | inl (v, p) ↦ rw p (succeeds v (λ i. (p i, w')))
        | inr (e, p) ↦ rw p (gives_up e (λ i. (p i, w')) (inr (omega arith)))
      ]
  retry_from-Retries (suc fuel) a last w h =
      let w' = (call a last w).1 in
      elim (Result-cases (call a last w).0) [
        | inl (v, p) ↦ rw (p, retry_from) (succeeds v (λ i. (p i, w')))
        | inr (e, p) ↦
            let again =
              retry_from-Retries fuel (a + 1) (some (policy.classify e)) w' (omega arith) in
            elim (Bool-cases (stops policy (policy.classify e) a)) [
              | inl t ↦
                  rw (p, retry_from)
                    (rw t (gives_up e (λ i. (p i, w')) (stops-true policy (policy.classify e) a t)))
              | inr t ↦
                  let go = stops-false policy (policy.classify e) a t in
                  rw (p, retry_from) (rw t (retries e (λ i. (p i, w')) go.0 go.1 refl again))
            ]
      ]

  -- The loop ends: its outcome is the one that its description allows, whatever the closure does
  -- and with no bound on fuel. A success is returned at once, a fatal error or the error of the
  -- last attempt too, and after any other error it sleeps once and tries again.
  pub with_retry-Retries :
      (w : W)
      → Retries 0 none w
          (with_retry scale policy f w).result
          (with_retry scale policy f w).world
          (with_retry scale policy f w).delays
  unfolding with_retry
  with_retry-Retries w = retry_from-Retries policy.max_attempts 0 none w (omega arith)

  Retries-bounds :
      {a : ℕ} {last : Option ErrorClass} {w w' : W} {r : Result T} {ds : List ℕ}
      → Retries a last w r w' ds
      → (a + length ds + 1 ≤ max (a + 1) policy.max_attempts)
        × All (λ d. d ≤ policy.max_delay) ds
        × ((e : Error)
            → r ≡ err e
            → policy.classify e ≢ fatal
            → max (a + 1) policy.max_attempts ≤ a + length ds + 1)
  unfolding delay
  Retries-bounds (succeeds v p) = (omega arith, tt, λ e q n. cc)
  Retries-bounds (gives_up e p stop) = (omega arith, tt, λ e' q n. ground (arith, stop))
  Retries-bounds (retries {a = a} e p n lt same rest) =
      let ih = Retries-bounds rest in
      (omega (arith, ih.0), (omega arith, ih.1), λ e' q k. omega (arith, ih.2 e' q k))

  -- `calls` is a count of the calls of the closure that it keeps in the state
  module _ (calls : W → ℕ)
      (counts : (ctx : RetryContext) (w : W) → calls (f ctx w).1 ≡ calls w + 1) where
    Retries-calls :
        {a : ℕ} {last : Option ErrorClass} {w w' : W} {r : Result T} {ds : List ℕ}
        → Retries a last w r w' ds
        → calls w' ≡ calls w + length ds + 1
    Retries-calls (succeeds {a = a} {last = last} {w = w} v p) =
        let once = counts (record { attempt = a; last_error_class = last }) w in
        ap (λ q. calls q.1) (sym p) ∙ once ∙ omega arith
    Retries-calls (gives_up {a = a} {last = last} {w = w} e p stop) =
        let once = counts (record { attempt = a; last_error_class = last }) w in
        ap (λ q. calls q.1) (sym p) ∙ once ∙ omega arith
    Retries-calls (retries {a = a} {last = last} {w = w} e p n lt same rest) =
        let once =
          ap (λ q. calls q.1) (sym p)
          ∙ counts (record { attempt = a; last_error_class = last }) w in
        omega (arith, once, Retries-calls rest)

    -- Where the closure counts its calls in the state, the loop calls it once more than it sleeps and
    -- at most `max_attempts` times, or once where that is 0, and no sleep is longer than `max_delay`.
    pub with_retry_bounds :
        (w : W)
        → (calls (with_retry scale policy f w).world
            ≡ calls w + length (with_retry scale policy f w).delays + 1)
          × (calls (with_retry scale policy f w).world ≤ calls w + max 1 policy.max_attempts)
          × All (λ d. d ≤ policy.max_delay) (with_retry scale policy f w).delays
    with_retry_bounds w =
        let b = Retries-bounds (with_retry-Retries w) in
        let made = Retries-calls (with_retry-Retries w) in (made, omega (arith, made, b.0), b.1)

    -- Where the closure counts its calls in the state, an error that is returned and is not fatal was
    -- returned after all the attempts: `max_attempts` calls, or one where that is 0.
    pub with_retry_exhausts :
        (w : W) (e : Error)
        → (with_retry scale policy f w).result ≡ err e
        → policy.classify e ≢ fatal
        → calls (with_retry scale policy f w).world ≡ calls w + max 1 policy.max_attempts
    with_retry_exhausts w e q n =
        let b = Retries-bounds (with_retry-Retries w) in
        let made = Retries-calls (with_retry-Retries w) in omega (arith, made, b.0, b.2 e q n)
