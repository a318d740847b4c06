-- ===== src/Retry.antt =====
-- crates/workflow_engine/src/retry.rs. The closure may change the state `W` of what it calls. The
-- `f64` product that gives a delay, `(base * factor.powi(attempt)) as u64`, is the parameter
-- `scale`; the delays that the loop sleeps are kept in its outcome. Fuel: `max_attempts` rounds,
-- after which the loop would give up; `Retry.Loop` shows that it never comes to that.
pub mod Loop
mod Tests
use tianshu_rs.Base.{
  ℕ, zero, suc, ◌+◌, ◌≡◌, ◌↔◌, arith, Bool, true, false, ◌||◌, Option, none, some, List, [], ◌∷◌,
  String, Result, ok, err, Error, Eq, ◌==◌, if◌then◌else◌, leb, min,
}

pub data ErrorClass : Type 0 where
  transient prompt_too_long max_output_tokens provider_overloaded fatal : ErrorClass

abbrev pub class_beq : ErrorClass → ErrorClass → Bool
class_beq transient transient = true
class_beq prompt_too_long prompt_too_long = true
class_beq max_output_tokens max_output_tokens = true
class_beq provider_overloaded provider_overloaded = true
class_beq fatal fatal = true
class_beq _ _ = false

pub class_beq_iff : (a b : ErrorClass) → (class_beq a b ≡ true) ↔ (a ≡ b)
class_beq_iff transient b = ground arith
class_beq_iff _ b = ground arith

instance abbrev pub class_eq : Eq ErrorClass
class_eq = record { same = class_beq; same_iff = class_beq_iff }

-- the `Display` implementation
unfoldable pub to_string : ErrorClass → String
to_string transient = "Transient"
to_string prompt_too_long = "PromptTooLong"
to_string max_output_tokens = "MaxOutputTokens"
to_string provider_overloaded = "ProviderOverloaded"
to_string fatal = "Fatal"

pub record RetryContext : Type 0 where
  pub attempt : ℕ
  pub last_error_class : Option ErrorClass

pub record RetryPolicy (Float : Type 0) : Type 0 where
  pub max_attempts : ℕ
  pub base_delay : ℕ
  pub max_delay : ℕ
  pub backoff_factor : Float
  pub classify : Error → ErrorClass

-- `two` is the `f64` 2.0
unfoldable pub default_transient : {Float : Type 0} (two : Float) → RetryPolicy Float
default_transient two = record {
  max_attempts = 3;
  base_delay = 100;
  max_delay = 2000;
  backoff_factor = two;
  classify = λ _. transient;
}

pub record Outcome (T W : Type 0) : Type 0 where
  pub result : Result T
  pub world : W
  pub delays : List ℕ

module _ {Float : Type 0} (scale : ℕ → Float → ℕ → ℕ) (policy : RetryPolicy Float) where
  unfoldable pub delay : ℕ → ℕ
  delay attempt = min (scale policy.base_delay policy.backoff_factor attempt) policy.max_delay

module _ {Float : Type 0} (policy : RetryPolicy Float) where
  abbrev pub stops : ErrorClass → ℕ → Bool
  stops class attempt = class == fatal || leb policy.max_attempts (attempt + 1)

abbrev slept : {T W : Type 0} → ℕ → Outcome T W → Outcome T W
slept d o = record o { delays = d ∷ o.delays }

module _ {Float T W : Type 0} (scale : ℕ → Float → ℕ → ℕ) (policy : RetryPolicy Float)
    (f : RetryContext → W → Result T × W) where
  unfoldable pub retry_from : (fuel attempt : ℕ) → Option ErrorClass → W → Outcome T W
  unfolding delay
  retry_from zero attempt last w =
      let (r, w') = f (record { attempt = attempt; last_error_class = last }) w in
      record { result = r; world = w'; delays = [] }
  retry_from (suc fuel) attempt last w =
      let (r, w') = f (record { attempt = attempt; last_error_class = last }) w in
      elim r [
        | ok v ↦ record { result = ok v; world = w'; delays = [] }
        | err e ↦
            let class = policy.classify e in
            let again = retry_from fuel (attempt + 1) (some class) w' in
            if stops policy class attempt
            then record { result = err e; world = w'; delays = [] }
            else slept (delay scale policy attempt) again
      ]

  unfoldable pub with_retry : W → Outcome T W
  unfolding retry_from
  with_retry w = retry_from policy.max_attempts 0 none w
