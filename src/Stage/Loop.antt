-- ===== src/Stage/Loop.antt =====
-- crates/workflow_engine/src/stage.rs: the runs of `run_stages`, without fuel.
use tianshu_rs.Base.{
  ℕ, zero, suc, ◌+◌, String, Option, none, some, List, Result, ok, err, Error, Eq, ◌≡◌, refl, arith,
  inl, inr, ◌↔◌, Option-cases, Result-cases,
}
use tianshu_rs.Base.HashMap
use tianshu_rs.Workflow.{PollPredicate, WorkflowResult, waits}
use tianshu_rs.Store.{CaseStore, StateStore}
use tianshu_rs.Context.{WorkflowContext}
use tianshu_rs.Stage.{
  StageOutcome, Stage, StageRegistry, StageTiming, clear_all, unknown, finish_case, run_stages,
}

module _ {K Json Float C S : Type 0} ⦃e : Eq K⦄ (cases : CaseStore Json C) (states : StateStore S)
    (debug : K → String) (registry : StageRegistry K (WorkflowContext Json Float C S))
    (time : ℕ → StageTiming) where
  abbrev Ctx : Type 0
  Ctx = WorkflowContext Json Float C S

  -- `Runs round key c out`: from the stage of `key` the loop ends with the result and the context `out`.
  pub data Runs : ℕ → K → Ctx → Result WorkflowResult × Ctx → Type 0 where
    no_stage :
        {round : ℕ} {key : K} {c : Ctx} {out : Result WorkflowResult × Ctx}
        → HashMap.get registry key ≡ none
        → out ≡ (err (unknown cases states debug registry time key), c)
        → Runs round key c out
    fails :
        {round : ℕ} {key : K} {c c' : Ctx} {out : Result WorkflowResult × Ctx} {x : Error}
        (stage : Stage K Ctx)
        → HashMap.get registry key ≡ some stage
        → stage.execute c ≡ (err x, c')
        → out ≡ (err x, c')
        → Runs round key c out
    pauses :
        {round : ℕ} {key : K} {c c' : Ctx} {out : Result WorkflowResult × Ctx} (stage : Stage K Ctx)
        (polls : List PollPredicate)
        → HashMap.get registry key ≡ some stage
        → stage.execute c ≡ (ok (StageOutcome.waiting polls), c')
        → out ≡ (ok (waits polls), c')
        → Runs round key c out
    ends :
        {round : ℕ} {key : K} {c c' : Ctx} {out : Result WorkflowResult × Ctx} (stage : Stage K Ctx)
        (t d : String)
        → HashMap.get registry key ≡ some stage
        → stage.execute c ≡ (ok (StageOutcome.finished t d), c')
        → out ≡ finish_case cases states debug registry time round t d c'
        → Runs round key c out
    clear_fails :
        {round : ℕ} {key : K} {c c' c'' : Ctx} {out : Result WorkflowResult × Ctx} {x : Error}
        (stage : Stage K Ctx) (key' : K) (cleared : List K)
        → HashMap.get registry key ≡ some stage
        → stage.execute c ≡ (ok (StageOutcome.next key' cleared), c')
        → clear_all registry (time round).cleared_at cleared c' ≡ (err x, c'')
        → out ≡ (err x, c'')
        → Runs round key c out
    advances :
        {round round' : ℕ} {key : K} {c c' c'' : Ctx} {out : Result WorkflowResult × Ctx}
        (stage : Stage K Ctx) (key' : K) (cleared : List K)
        → HashMap.get registry key ≡ some stage
        → stage.execute c ≡ (ok (StageOutcome.next key' cleared), c')
        → clear_all registry (time round).cleared_at cleared c' ≡ (ok tt, c'')
        → round' ≡ round + 1
        → Runs round' key' c'' out
        → Runs round key c out

  abbrev run : ℕ → ℕ → K → Ctx → Option (Result WorkflowResult × Ctx)
  run = run_stages cases states debug registry time

  outcome-Runs :
      (fuel round : ℕ) (key : K) (c : Ctx) (out : Result WorkflowResult × Ctx) (stage : Stage K Ctx)
      (o : StageOutcome K)
      → HashMap.get registry key ≡ some stage
      → (stage.execute c).0 ≡ ok o
      → ((key' : K) (c'' : Ctx)
          → run fuel (round + 1) key' c'' ≡ some out
          → Runs (round + 1) key' c'' out)
      → run (suc fuel) round key c ≡ some out
      → Runs round key c out
  unfolding run_stages
  outcome-Runs fuel round key c out stage (StageOutcome.waiting polls) p q rest h =
      pauses stage polls p (λ i. (q i, (stage.execute c).1)) (ground (arith, p, q, h))
  outcome-Runs fuel round key c out stage (StageOutcome.finished t d) p q rest h =
      ends stage t d p (λ i. (q i, (stage.execute c).1)) (ground (arith, p, q, h))
  outcome-Runs fuel round key c out stage (StageOutcome.next key' cleared) p q rest h =
      let c' = (stage.execute c).1 in
      let after = clear_all registry (time round).cleared_at cleared c' in
      elim (Result-cases after.0) [
        | inr (x, r) ↦
            clear_fails stage key' cleared p (λ i. (q i, c')) (λ i. (r i, after.1))
              (ground (arith, p, q, r, h))
        | inl (done, r) ↦
            advances stage key' cleared p (λ i. (q i, c')) (λ i. (r i, after.1)) refl
              (rest key' after.1 (ground (arith, p, q, r, h)))
      ]

  pub run_stages-Runs :
      (fuel round : ℕ) (key : K) (c : Ctx) (out : Result WorkflowResult × Ctx)
      → run fuel round key c ≡ some out
      → Runs round key c out
  unfolding run_stages
  run_stages-Runs zero round key c out h = absurd (ground (arith, h))
  run_stages-Runs (suc fuel) round key c out h = elim (Option-cases (HashMap.get registry key)) [
    | inl p ↦ no_stage p (ground (arith, p, h))
    | inr (stage, p) ↦ elim (Result-cases (stage.execute c).0) [
      | inr (x, q) ↦ fails stage p (λ i. (q i, (stage.execute c).1)) (ground (arith, p, q, h))
      | inl (o, q) ↦
          outcome-Runs fuel round key c out stage o p q
            (λ key' c'' k. run_stages-Runs fuel (round + 1) key' c'' out k) h
    ]
  ]

  Runs-run_stages :
      {round : ℕ} {key : K} {c : Ctx} {out : Result WorkflowResult × Ctx}
      → Runs round key c out
      → (fuel : ℕ) × (run fuel round key c ≡ some out)
  unfolding run_stages
  Runs-run_stages (no_stage p o) = (1, rw (p, run_stages) (rw o refl))
  Runs-run_stages (fails stage p q o) = (1, ground (arith, p, q, o))
  Runs-run_stages (pauses stage polls p q o) = (1, ground (arith, p, q, o))
  Runs-run_stages (ends stage t d p q o) = (1, ground (arith, p, q, o))
  Runs-run_stages (clear_fails stage key' cleared p q r o) = (1, ground (arith, p, q, r, o))
  Runs-run_stages (advances {round = round} stage key' cleared p q r n rest) =
      let (fuel, later) = Runs-run_stages rest in (suc fuel, ground (arith, p, q, r, rw n at later))

  -- The loop ends with a result and a context, with enough fuel, exactly where its description
  -- without fuel says so.
  pub run_stages-iff-Runs :
      (round : ℕ) (key : K) (c : Ctx) (out : Result WorkflowResult × Ctx)
      → ((fuel : ℕ) × (run_stages cases states debug registry time fuel round key c ≡ some out))
        ↔ Runs round key c out
  run_stages-iff-Runs round key c out =
      (λ ran. run_stages-Runs ran.0 round key c out ran.1, λ r. Runs-run_stages r)
