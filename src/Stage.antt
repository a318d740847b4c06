-- ===== src/Stage.antt =====
-- crates/workflow_engine/src/stage.rs: workflows in stages. A stage is an action on the context. The
-- loop `run_stages` ends only where the stages do: it runs on fuel, and `none` says that the fuel
-- is used up. The clock readings are given by the round.
pub mod Loop
pub mod Clearing
pub mod Forward
pub mod Passage
mod Tests
use tianshu_rs.Base.{
  ℕ, zero, suc, ◌+◌, String, Bool, true, false, Option, none, some, List, [], ◌∷◌, Result, ok, err,
  Error, Eq, format, anyhow,
}
use tianshu_rs.Base.HashMap
use tianshu_rs.Base.HashMap.{HashMap}
use tianshu_rs.Base.Exec.{Exec, ◌>>=◌, ◌>>◌, pure}
use tianshu_rs.Workflow.{PollPredicate, WorkflowResult, waits, finishes}
use tianshu_rs.Store.{CaseStore, StateStore}
use tianshu_rs.Context.{Serde, WorkflowContext}
use tianshu_rs.Context.Checkpoint.{clear_steps}
use tianshu_rs.Context.Finish.{FinishTiming, finish}

pub data StageOutcome (K : Type 0) : Type 0 where
  waiting : List PollPredicate → StageOutcome K
  next : (stage : K) (clear_stages : List K) → StageOutcome K
  finished : (finish_type finish_desc : String) → StageOutcome K

module _ {K : Type 0} where
  unfoldable pub next_only : K → StageOutcome K
  next_only stage = next stage []

  unfoldable pub next_with_clear : K → List K → StageOutcome K
  next_with_clear stage clear = next stage clear

-- a stage, in contexts of the type `X`
pub record Stage (K X : Type 0) : Type 0 where
  pub stage_key : K
  pub step_keys : List String
  pub execute : Exec X (StageOutcome K)
  pub clear : ℕ → Exec X (Unit {0})

-- the default body of `clear`
unfoldable pub clear_own_steps :
    {Json Float C S : Type 0}
    → Serde Json
    → StateStore S
    → (step_keys : List String) → (now : ℕ) → Exec (WorkflowContext Json Float C S) (Unit {0})
clear_own_steps serde states step_keys now = clear_steps serde states now step_keys

pub record StageTiming : Type 0 where
  pub cleared_at : ℕ
  pub finish_timing : FinishTiming

abbrev pub StageRegistry : Type 0 → Type 0 → Type 0
StageRegistry K X = HashMap K (Stage K X)

module _ {K X : Type 0} ⦃e : Eq K⦄ (registry : StageRegistry K X) where
  abbrev clear_found : ℕ → Option (Stage K X) → Exec X (Unit {0})
  clear_found now none = pure tt
  clear_found now (some stage) = stage.clear now

  -- stages that are not registered are passed over
  unfoldable pub clear_all : ℕ → List K → Exec X (Unit {0})
  clear_all now [] = pure tt
  clear_all now (k ∷ keys) = do clear_found now (HashMap.get registry k); clear_all now keys

module _ {K Json Float C S : Type 0} ⦃e : Eq K⦄ (cases : CaseStore Json C) (states : StateStore S)
    (debug : K → String) (registry : StageRegistry K (WorkflowContext Json Float C S))
    (time : ℕ → StageTiming) where
  abbrev pub unknown : K → Error
  unknown key = record { message = format ("No stage registered for key " ∷ debug key ∷ []) }

  abbrev pub finish_case :
      ℕ → String → String → Exec (WorkflowContext Json Float C S) WorkflowResult
  finish_case round t d = do finish cases states (time round).finish_timing t d; pure (finishes t d)

  unfoldable pub run_stages :
      (fuel round : ℕ)
      → K
      → WorkflowContext Json Float C S
      → Option (Result WorkflowResult × WorkflowContext Json Float C S)
  run_stages zero round key c = none
  run_stages (suc fuel) round key c = elim (HashMap.get registry key) [
    | none ↦ some (err (unknown key), c)
    | some stage ↦
        let (r, c') = stage.execute c in
        elim r [
          | err x ↦ some (err x, c')
          | ok (waiting polls) ↦ some (ok (waits polls), c')
          | ok (finished t d) ↦ some (finish_case round t d c')
          | ok (next key' clear_stages) ↦
              let (cleared, c'') = clear_all registry (time round).cleared_at clear_stages c' in
              elim cleared [
                | err x ↦ some (err x, c'')
                | ok done ↦ run_stages fuel (round + 1) key' c''
              ]
        ]
  ]
