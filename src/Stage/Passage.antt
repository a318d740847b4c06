-- ===== src/Stage/Passage.antt =====
-- crates/workflow_engine/src/stage.rs: what a run of `run_stages` goes through, by what is seen of the
-- checkpoints and of the finished case.
use tianshu_rs.Base.{
  ℕ, ◌+◌, String, none, some, List, [], Result, ok, err, Error, Eq, ◌≡◌, ◌⊎◌, All,
}
use tianshu_rs.Base.HashMap
use tianshu_rs.Workflow.{PollPredicate, WorkflowResult, waits, finishes}
use tianshu_rs.Case.{mc_finish}
use tianshu_rs.Store.{CaseStore, StateStore, IsStateStore}
use tianshu_rs.Context.{Serde, IsSerde, WorkflowContext}
use tianshu_rs.Stage.{StageOutcome, Stage, StageRegistry, StageTiming, clear_all, unknown}
use tianshu_rs.Stage.Clearing.{IsCleared}

module _ {K Json Float C S : Type 0} ⦃e : Eq K⦄ (serde : Serde Json) (cases : CaseStore Json C)
    (states : StateStore S) (laws : IsSerde serde) (store : IsStateStore states)
    (debug : K → String) (registry : StageRegistry K (WorkflowContext Json Float C S))
    (time : ℕ → StageTiming) where
  abbrev Ctx : Type 0
  Ctx = WorkflowContext Json Float C S

  -- The finished case is stored, the cache and the step records are empty and the entries of the case were
  -- asked to be deleted; or the case store refuses it, its error is returned and the state is kept.
  abbrev pub IsFinish : ℕ → String → String → Ctx → Result WorkflowResult × Ctx → Type 0
  IsFinish round t d c out =
      let done = mc_finish (time round).finish_timing.updated_at t d c.case in
      ((cases.upsert done c.case_store ≡ (ok tt, out.1.case_store))
        × (out.0 ≡ ok (finishes t d))
        × (out.1.case ≡ done)
        × (out.1.checkpoint_cache ≡ [])
        × (out.1.step_records ≡ [])
        × (out.1.state_store ≡ (states.delete_by_case c.case.case_key c.state_store).1))
      ⊎ ((x : Error) × ((cases.upsert done c.case_store).0 ≡ err x)
          × (out.0 ≡ err x)
          × (out.1.state_store ≡ c.state_store))

  -- `Passes round key c out`: the run from the stage of `key` in the context `c` ends with `out`.
  -- A stage begins in the context that the one before it left, in which no step of a stage
  -- that the transition clears has a checkpoint.
  pub data Passes : ℕ → K → Ctx → Result WorkflowResult × Ctx → Type 0 where
    unregistered :
        {round : ℕ} {key : K} {c : Ctx} {out : Result WorkflowResult × Ctx}
        → HashMap.get registry key ≡ none
        → out ≡ (err (unknown cases states debug registry time key), c)
        → Passes round key c out
    broken :
        {round : ℕ} {key : K} {c c' : Ctx} {out : Result WorkflowResult × Ctx} {x : Error}
        (stage : Stage K Ctx)
        → HashMap.get registry key ≡ some stage
        → stage.execute c ≡ (err x, c')
        → out ≡ (err x, c')
        → Passes round key c out
    paused :
        {round : ℕ} {key : K} {c c' : Ctx} {out : Result WorkflowResult × Ctx} (stage : Stage K Ctx)
        (polls : List PollPredicate)
        → HashMap.get registry key ≡ some stage
        → stage.execute c ≡ (ok (StageOutcome.waiting polls), c')
        → out ≡ (ok (waits polls), c')
        → Passes round key c out
    completed :
        {round : ℕ} {key : K} {c c' : Ctx} {out : Result WorkflowResult × Ctx} (stage : Stage K Ctx)
        (t d : String)
        → HashMap.get registry key ≡ some stage
        → stage.execute c ≡ (ok (StageOutcome.finished t d), c')
        → IsFinish round t d c' out
        → Passes round key c out
    uncleared :
        {round : ℕ} {key : K} {c c' : Ctx} {out : Result WorkflowResult × Ctx} {x : Error}
        (stage : Stage K Ctx) (key' : K) (cleared : List K)
        → HashMap.get registry key ≡ some stage
        → stage.execute c ≡ (ok (StageOutcome.next key' cleared), c')
        → clear_all registry (time round).cleared_at cleared c' ≡ (err x, out.1)
        → out.0 ≡ err x
        → Passes round key c out
    continued :
        {round round' : ℕ} {key : K} {c c' c'' : Ctx} {out : Result WorkflowResult × Ctx}
        (stage : Stage K Ctx) (key' : K) (cleared : List K)
        → HashMap.get registry key ≡ some stage
        → stage.execute c ≡ (ok (StageOutcome.next key' cleared), c')
        → All (IsCleared serde states laws store registry c'') cleared
        → round' ≡ round + 1
        → Passes round' key' c'' out
        → Passes round key c out
