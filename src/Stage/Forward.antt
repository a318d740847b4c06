-- ===== src/Stage/Forward.antt =====
-- crates/workflow_engine/src/stage.rs: stages that go forward come to an end.
use tianshu_rs.Base.{
  ℕ, zero, suc, ◌+◌, ◌<◌, String, some, List, Result, ok, err, Eq, ◌≡◌, ◌∙◌, ap, refl, arith, inl,
  inr, Option-cases, Result-cases,
}
use tianshu_rs.Base.HashMap
use tianshu_rs.Workflow.{WorkflowResult, waits}
use tianshu_rs.Store.{CaseStore, StateStore}
use tianshu_rs.Context.{WorkflowContext}
use tianshu_rs.Stage.{
  StageOutcome, Stage, StageRegistry, StageTiming, clear_all, unknown, finish_case, run_stages,
}

module _ {K Json Float C S : Type 0} ⦃e : Eq K⦄ (cases : CaseStore Json C) (states : StateStore S)
    (debug : K → String) (registry : StageRegistry K (WorkflowContext Json Float C S))
    (time : ℕ → StageTiming) where
  abbrev Ctx : Type 0
  Ctx = WorkflowContext Json Float C S

  -- Each transition leads to a stage of a lower rank.
  abbrev pub GoesForward : (K → ℕ) → Type 0
  GoesForward rank =
      (key : K) (stage : Stage K Ctx) (c c' : Ctx) (key' : K) (cleared : List K)
      → HashMap.get registry key ≡ some stage
      → stage.execute c ≡ (ok (StageOutcome.next key' cleared), c')
      → rank key' < rank key

  abbrev Ends : ℕ → ℕ → K → Ctx → Type 0
  Ends fuel round key c =
      (out : Result WorkflowResult × Ctx) × (run_stages cases states debug registry time fuel round
          key c
        ≡ some out)

  outcome-Ends :
      (fuel round : ℕ) (key : K) (c : Ctx) (stage : Stage K Ctx) (o : StageOutcome K)
      → HashMap.get registry key ≡ some stage
      → (stage.execute c).0 ≡ ok o
      → ((key' : K) (cleared : List K) (c'' : Ctx)
          → o ≡ StageOutcome.next key' cleared
          → Ends fuel (round + 1) key' c'')
      → Ends (suc fuel) round key c
  unfolding run_stages
  outcome-Ends fuel round key c stage (StageOutcome.waiting polls) p q rest =
      ((ok (waits polls), (stage.execute c).1), ground (arith, p, q))
  outcome-Ends fuel round key c stage (StageOutcome.finished t d) p q rest = (
    finish_case cases states debug registry time round t d (stage.execute c).1,
    ground (arith, p, q),
  )
  outcome-Ends fuel round key c stage (StageOutcome.next key' cleared) p q rest =
      let after = clear_all registry (time round).cleared_at cleared (stage.execute c).1 in
      elim (Result-cases after.0) [
        | inr (x, r) ↦ ((err x, after.1), ground (arith, p, q, r))
        | inl (done, r) ↦
            let later = rest key' cleared after.1 refl in
            (later.0, ground (arith, p, q, r, later.1))
      ]

  -- Where each transition leads to a stage of a lower rank, the loop ends, with more fuel than the
  -- rank of its first stage, whatever the stages do to the context.
  pub run_stages_ends :
      (rank : K → ℕ) (fuel round : ℕ) (key : K) (c : Ctx)
      → GoesForward rank
      → rank key < fuel
      → (out : Result WorkflowResult × Ctx) × (run_stages cases states debug registry time fuel
            round key c
          ≡ some out)
  unfolding run_stages
  run_stages_ends rank zero round key c forward h = absurd (omega arith)
  run_stages_ends rank (suc fuel) round key c forward h =
      elim (Option-cases (HashMap.get registry key)) [
        | inl p ↦ ((err (unknown cases states debug registry time key), c), ground (arith, p))
        | inr (stage, p) ↦ elim (Result-cases (stage.execute c).0) [
          | inr (x, q) ↦ ((err x, (stage.execute c).1), ground (arith, p, q))
          | inl (o, q) ↦ outcome-Ends fuel round key c stage o p q (λ key' cleared c'' r.
              let lower =
                forward key stage c (stage.execute c).1 key' cleared p
                  (λ i. ((q ∙ ap ok r) i, (stage.execute c).1)) in
              run_stages_ends rank fuel (round + 1) key' c'' forward (omega (arith, lower, h)))
        ]
      ]
