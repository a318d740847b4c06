-- ===== src/Stage/Clearing.antt =====
-- crates/workflow_engine/src/stage.rs: what a transition with `clear_stages` leaves of the steps.
use tianshu_rs.Base.{
  ℕ, String, none, some, List, [], ◌∷◌, Result, ok, Eq, ◌==◌, string_eq, ◌≡◌, ◌≢◌, ◌∙◌, ap, arith,
  inl, inr, All, Bool-cases, Result-cases, Option-cases, All-map,
}
use tianshu_rs.Base.HashMap
use tianshu_rs.Store.{StateStore, IsStateStore}
use tianshu_rs.Context.{Serde, IsSerde, WorkflowContext}
use tianshu_rs.Context.Checkpoint.{get_checkpoint, clear_step, clear_steps}
use tianshu_rs.Context.Checkpoint.Cleared.{absent-clear_step, get-clear_step}
use tianshu_rs.Stage.{Stage, StageRegistry, clear_own_steps, clear_all, clear_found}

module _ {Json Float C S : Type 0} (serde : Serde Json) (states : StateStore S)
    (laws : IsSerde serde) (store : IsStateStore states) where
  abbrev pub IsAbsent : String → WorkflowContext Json Float C S → Type 0
  IsAbsent name c = (get_checkpoint serde states name c).0 ≡ ok none

  clear_step-IsAbsent :
      (now : ℕ) (name : String) (c d : WorkflowContext Json Float C S)
      → clear_step serde states now name c ≡ (ok tt, d)
      → IsAbsent name d
  clear_step-IsAbsent now name c d e = absent-clear_step serde states laws store now name c d e

  clear_step_keeps-IsAbsent :
      (now : ℕ) (name other : String) (c d : WorkflowContext Json Float C S)
      → clear_step serde states now name c ≡ (ok tt, d)
      → IsAbsent other c
      → IsAbsent other d
  clear_step_keeps-IsAbsent now name other c d e h = elim (Bool-cases (name == other)) [
    | inl same ↦
        let names : name ≡ other = (string_eq.same_iff name other).0 same in
        rw names at (clear_step-IsAbsent now name c d e)
    | inr differ ↦
        let ne : name ≢ other = λ p. ground (arith, string_eq.same_iff name other) in
        (get-clear_step serde states laws store now name c d e other ne).1 ∙ h
  ]

  -- the parts of a run that succeeds
  clear_steps_parts :
      (now : ℕ) (name : String) (rest : List String) (c d : WorkflowContext Json Float C S)
      → clear_steps serde states now (name ∷ rest) c ≡ (ok tt, d)
      → (m : WorkflowContext Json Float C S) × (clear_step serde states now name c ≡ (ok tt, m))
        × (clear_steps serde states now rest m ≡ (ok tt, d))
  unfolding clear_steps
  clear_steps_parts now name rest c d e =
      elim (Result-cases (clear_step serde states now name c).0) [
        | inl (done, p) ↦
            ((clear_step serde states now name c).1, ground (arith, p), ground (arith, p))
        | inr (x, p) ↦ absurd (ground (arith, p))
      ]

  clear_steps_keeps-IsAbsent :
      (now : ℕ) (names : List String) (other : String) (c d : WorkflowContext Json Float C S)
      → clear_steps serde states now names c ≡ (ok tt, d)
      → IsAbsent other c
      → IsAbsent other d
  unfolding clear_steps
  clear_steps_keeps-IsAbsent now [] other c d e h =
      let same : c ≡ d = ap (λ (r : Result Unit × WorkflowContext Json Float C S). r.1) e in
      rw (← same) h
  clear_steps_keeps-IsAbsent now (name ∷ rest) other c d e h =
      let (m, first, later) = clear_steps_parts now name rest c d e in
      clear_steps_keeps-IsAbsent now rest other m d later
        (clear_step_keeps-IsAbsent now name other c m first h)

  clear_steps-IsAbsent :
      (now : ℕ) (names : List String) (c d : WorkflowContext Json Float C S)
      → clear_steps serde states now names c ≡ (ok tt, d)
      → All (λ name. IsAbsent name d) names
  clear_steps-IsAbsent now [] c d e = tt
  clear_steps-IsAbsent now (name ∷ rest) c d e =
      let (m, first, later) = clear_steps_parts now name rest c d e in
      (
        clear_steps_keeps-IsAbsent now rest name m d later (clear_step-IsAbsent now name c m first),
        clear_steps-IsAbsent now rest m d later,
      )

  module _ {K : Type 0} ⦃eq : Eq K⦄
      (registry : StageRegistry K (WorkflowContext Json Float C S)) where
    -- The stages clear their own steps, as the default body of `clear` does.
    abbrev pub ClearOwnSteps : Type 0
    ClearOwnSteps =
        (k : K) (stage : Stage K (WorkflowContext Json Float C S))
        → HashMap.get registry k ≡ some stage
        → stage.clear ≡ clear_own_steps serde states stage.step_keys

    -- no step of the stage has a checkpoint, where the key has a stage
    abbrev pub IsCleared : WorkflowContext Json Float C S → K → Type 0
    IsCleared c k =
        (stage : Stage K (WorkflowContext Json Float C S))
        → HashMap.get registry k ≡ some stage
        → All (λ name. IsAbsent name c) stage.step_keys

    clear_all_parts :
        (now : ℕ) (k : K) (rest : List K) (c d : WorkflowContext Json Float C S)
        → clear_all registry now (k ∷ rest) c ≡ (ok tt, d)
        → (m : WorkflowContext Json Float C S) × (clear_found registry now
              (HashMap.get registry k)
              c
            ≡ (ok tt, m))
          × (clear_all registry now rest m ≡ (ok tt, d))
    unfolding clear_all
    clear_all_parts now k rest c d e =
        let first = clear_found registry now (HashMap.get registry k) c in
        elim (Result-cases first.0) [
          | inl (done, p) ↦ (first.1, ground (arith, p), ground (arith, p))
          | inr (x, p) ↦ absurd (ground (arith, p))
        ]

    module _ (own : ClearOwnSteps) where
      clear_found_keeps-IsAbsent :
          (now : ℕ) (k : K) (other : String) (c d : WorkflowContext Json Float C S)
          → clear_found registry now (HashMap.get registry k) c ≡ (ok tt, d)
          → IsAbsent other c
          → IsAbsent other d
      unfolding clear_own_steps
      clear_found_keeps-IsAbsent now k other c d e h =
          elim (Option-cases (HashMap.get registry k)) [
            | inl p ↦ let same : c ≡ d = ground (arith, rw p at e) in rw (← same) h
            | inr (stage, p) ↦
                let run : clear_steps serde states now stage.step_keys c ≡ (ok tt, d) =
                  rw (own k stage p) at (rw p at e) in
                clear_steps_keeps-IsAbsent now stage.step_keys other c d run h
          ]

      clear_all_keeps-IsAbsent :
          (now : ℕ) (keys : List K) (other : String) (c d : WorkflowContext Json Float C S)
          → clear_all registry now keys c ≡ (ok tt, d)
          → IsAbsent other c
          → IsAbsent other d
      unfolding clear_all
      clear_all_keeps-IsAbsent now [] other c d e h =
          let same : c ≡ d = ap (λ (r : Result Unit × WorkflowContext Json Float C S). r.1) e in
          rw (← same) h
      clear_all_keeps-IsAbsent now (k ∷ rest) other c d e h =
          let (m, first, later) = clear_all_parts now k rest c d e in
          clear_all_keeps-IsAbsent now rest other m d later
            (clear_found_keeps-IsAbsent now k other c m first h)

      clear_found-IsCleared :
          (now : ℕ) (k : K) (c d : WorkflowContext Json Float C S)
          → clear_found registry now (HashMap.get registry k) c ≡ (ok tt, d)
          → IsCleared d k
      unfolding clear_own_steps
      clear_found-IsCleared now k c d e stage found =
          let run : clear_steps serde states now stage.step_keys c ≡ (ok tt, d) =
            rw (own k stage found) at (rw found at e) in
          clear_steps-IsAbsent now stage.step_keys c d run

      clear_all_keeps-IsCleared :
          (now : ℕ) (keys : List K) (k : K) (c d : WorkflowContext Json Float C S)
          → clear_all registry now keys c ≡ (ok tt, d)
          → IsCleared c k
          → IsCleared d k
      clear_all_keeps-IsCleared now keys k c d e h stage found =
          All-map (λ name. IsAbsent name c) (λ name. IsAbsent name d) stage.step_keys
            (λ name. clear_all_keeps-IsAbsent now keys name c d e) (h stage found)

      -- Where the stages clear their own steps, over a state store that meets the laws, no step of a
      -- stage that a transition clears has a checkpoint when the next stage begins.
      pub clear_all-IsCleared :
          (now : ℕ) (keys : List K) (c d : WorkflowContext Json Float C S)
          → clear_all registry now keys c ≡ (ok tt, d)
          → All (IsCleared d) keys
      clear_all-IsCleared now [] c d e = tt
      clear_all-IsCleared now (k ∷ rest) c d e =
          let (m, first, later) = clear_all_parts now k rest c d e in
          (
            clear_all_keeps-IsCleared now rest k m d later (clear_found-IsCleared now k c m first),
            clear_all-IsCleared now rest m d later,
          )
