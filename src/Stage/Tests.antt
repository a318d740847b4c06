-- ===== src/Stage/Tests.antt =====
-- A workflow of two stages: the first goes on to the second, and clears the step "ask" of the first.
use tianshu_rs.Base.{
  ℕ, String, Option, none, some, List, [], ◌∷◌, Result, ok, ◌≡◌, refl, ◌==◌, string_eq, nat_eq, eqb,
  arith, All, inl, inr, Bool-cases, ◌⊎◌,
}
use tianshu_rs.Base.HashMap
use tianshu_rs.Base.Exec.{Exec}
use tianshu_rs.Case
use tianshu_rs.Store.Memory.{InMemoryCaseStore}
use tianshu_rs.Store.State.{InMemoryStateStore, in_memory_state_store, in_memory-IsStateStore}
use tianshu_rs.Context
use tianshu_rs.Context.{Serde, IsSerde, WorkflowContext}
use tianshu_rs.Context.Checkpoint.{clear_steps, clear_step}
use tianshu_rs.Store.State
use tianshu_rs.Stage.{StageOutcome, Stage, StageRegistry, StageTiming, clear_own_steps, clear_all}
use tianshu_rs.Stage.Clearing.{ClearOwnSteps, IsCleared, clear_all-IsCleared}

abbrev serde : Serde String
serde = record {
  null = "null";
  is_null = λ s. s == "null";
  to_string = λ s. ok s;
  from_str = λ s. ok s;
}

laws : IsSerde serde
laws = record {
  from_str-to_string = λ v t e. ground (arith, e);
  null_is_null = refl;
  null_text = "null";
  null_prints = refl;
}

abbrev Ctx : Type 0
Ctx = WorkflowContext String ℕ (InMemoryCaseStore String) InMemoryStateStore

abbrev fresh : Ctx
fresh =
    Context.new (Case.new 1 "case_1" "session_1" "staged") []
      (record { entries = []; session_entries = [] })

abbrev asking : Exec Ctx (StageOutcome ℕ)
asking c = (ok (StageOutcome.next 0 (1 ∷ [])), c)

abbrev ending : Exec Ctx (StageOutcome ℕ)
ending c = (ok (StageOutcome.finished "ok" "done"), c)

abbrev stage : ℕ → List String → Exec Ctx (StageOutcome ℕ) → Stage ℕ Ctx
stage key steps execute = record {
  stage_key = key;
  step_keys = steps;
  execute = execute;
  clear = clear_own_steps serde in_memory_state_store steps;
}

abbrev registry : StageRegistry ℕ Ctx
registry = (1, stage 1 ("ask" ∷ []) asking) ∷ (0, stage 0 [] ending) ∷ []

abbrev time : ℕ → StageTiming
time n = record {
  cleared_at = n;
  finish_timing = record { updated_at = n; finished_at = n; total_duration_ms = 1 };
}

abbrev debug : ℕ → String
debug key = "stage"

-- the stage that is registered for a key
abbrev OneOf : ℕ → Stage ℕ Ctx → Type 0
OneOf key s = ((key ≡ 1) × (s ≡ stage 1 ("ask" ∷ []) asking)) ⊎ (s ≡ stage 0 [] ending)

registered : (key : ℕ) (s : Stage ℕ Ctx) → HashMap.get registry key ≡ some s → OneOf key s
unfolding HashMap.get
registered key s found = elim (Bool-cases (eqb 1 key)) [
  | inl p ↦ inl (ground (arith, p), ground (arith, rw p at found))
  | inr p ↦ elim (Bool-cases (eqb 0 key)) [
    | inl q ↦ inr (ground (arith, rw q at (rw p at found)))
    | inr q ↦ absurd (ground (arith, rw q at (rw p at found)))
  ]
]

-- the stage that an outcome leads to
abbrev goes_to : Result (StageOutcome ℕ) × Ctx → Option ℕ
goes_to (ok (StageOutcome.next key cleared), c) = some key
goes_to _ = none

own : ClearOwnSteps serde in_memory_state_store laws in_memory-IsStateStore registry
own key s found = elim (registered key s found) [ inl (p, q) ↦ rw q refl | inr q ↦ rw q refl ]

abbrev cleared : Ctx
cleared = (clear_all registry 5 (1 ∷ []) fresh).1

clear_all-IsCleared_example :
    All
      (IsCleared serde in_memory_state_store laws in_memory-IsStateStore registry cleared)
      (1 ∷ [])
unfolding clear_all clear_own_steps HashMap.get clear_steps clear_step State.save
clear_all-IsCleared_example =
    clear_all-IsCleared serde in_memory_state_store laws in_memory-IsStateStore registry own 5
      (1 ∷ []) fresh cleared refl
