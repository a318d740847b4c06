-- ===== src/Engine/Phases.antt =====
-- crates/workflow_engine/src/engine.rs: the phases of a tick, each a loop over case keys.
use mathlib.Core.Option
use tianshu_rs.Base.{
  ℕ, String, Bool, true, Option, none, some, List, [], ◌∷◌, ◌++◌, Result, ok, err, if◌then◌else◌,
  string_eq, length,
}
use tianshu_rs.Base.HashMap
use tianshu_rs.Base.HashMap.{HashMap}
use tianshu_rs.Case.{Case, mc_run, mc_wait, mc_finish}
use tianshu_rs.Workflow.{PollPredicate, WorkflowResult, continues, waits, finishes}
use tianshu_rs.Observe.{on_probe, ProbeOutcome, still_waiting, resumed, probe_finished, probe_error}
use tianshu_rs.Registry
use tianshu_rs.Registry.{WorkflowRegistry}
use tianshu_rs.Context
use tianshu_rs.Context.{WorkflowContext}
use tianshu_rs.Engine.{Shared, TickClock, Workflow}

-- a mutable view of the tick
pub record Progress (Json Float C S : Type 0) : Type 0 where
  pub dict : HashMap String (Case Json)
  pub shared : Shared Json Float C S
  pub woken : List String
  pub polls : List (String × List PollPredicate)
  pub any : Bool

abbrev probe_outcome : Result WorkflowResult → ProbeOutcome
probe_outcome (ok (waits polls)) = still_waiting
probe_outcome (ok continues) = resumed
probe_outcome (ok (finishes t d)) = probe_finished
probe_outcome (err e) = probe_error e.message

abbrev poll_count : Result WorkflowResult → ℕ
poll_count (ok (waits polls)) = length polls
poll_count _ = 0

module _ {Json Float C S : Type 0} where
  abbrev pub update_case :
      (Case Json → Case Json) → String → Progress Json Float C S → Progress Json Float C S
  update_case f k p = record p { dict = HashMap.alter p.dict k f }

  -- a new context for the case, with the scheduler's observer, runs the workflow
  unfoldable pub run_workflow :
      Bool
      → Workflow Json Float C S
      → Case Json
      → Shared Json Float C S
      → Result WorkflowResult × Shared Json Float C S
  run_workflow observed wf c shared =
      let ctx = Context.new c shared.case_store shared.state_store in
      let (r, after) = wf (record ctx { observed = observed; events = shared.events }) in
      (
        r,
        record {
          case_store = after.case_store;
          state_store = after.state_store;
          events = after.events;
        },
      )

  abbrev pub emit_probe :
      Bool
      → TickClock
      → Case Json
      → String
      → Result WorkflowResult
      → Shared Json Float C S
      → Shared Json Float C S
  emit_probe observed clock c key r shared =
      if observed
      then record shared {
        events =
            shared.events
            ++ on_probe (record {
              case_key = key;
              workflow_code = c.workflow_code;
              duration_ms = clock.probe_ms key;
              poll_count = poll_count r;
              outcome = probe_outcome r;
              timestamp = clock.now key;
            })
              ∷ [];
      }
      else shared

  -- what a probe's result changes
  abbrev pub after_probe :
      TickClock → String → Result WorkflowResult → Progress Json Float C S → Progress Json Float C S
  after_probe clock k (ok (waits [])) p = p
  after_probe clock k (ok (waits (q ∷ qs))) p = record p { polls = p.polls ++ (k, q ∷ qs) ∷ [] }
  after_probe clock k (ok continues) p = record (update_case (mc_run (clock.now k)) k p) {
    woken = p.woken ++ k ∷ [];
  }
  after_probe clock k (ok (finishes t d)) p = update_case (mc_finish (clock.now k) t d) k p
  after_probe clock k (err e) p = p

  -- what the result of an execution changes in phase 4
  abbrev pub after_execution :
      TickClock → String → Result WorkflowResult → Progress Json Float C S → Progress Json Float C S
  after_execution clock k (ok continues) p = record p { any = true }
  after_execution clock k (ok (waits polls)) p = record (update_case (mc_wait (clock.now k)) k p) {
    any = true;
  }
  after_execution clock k (ok (finishes t d)) p =
      record (update_case (mc_finish (clock.now k) t d) k p) { any = true }
  after_execution clock k (err e) p = p

module _ {Json Float C S : Type 0}
    (registry : WorkflowRegistry Json (Workflow Json Float C S)) where
  -- the case of a key with its workflow, where both are there
  unfoldable pub resolve :
      HashMap String (Case Json) → String → Option (Case Json × Workflow Json Float C S)
  resolve dict k = elim (HashMap.get dict k) [
    | none ↦ none
    | some c ↦ Option.map (λ wf. (c, wf)) (Registry.get registry c.workflow_code c)
  ]

module _ {Json Float C S : Type 0} (registry : WorkflowRegistry Json (Workflow Json Float C S))
    (clock : TickClock) (observed : Bool) where
  -- phase 2, for one waiting case with its workflow, where both are there
  unfoldable pub probe_resolved :
      Option (Case Json × Workflow Json Float C S)
      → String
      → Progress Json Float C S
      → Progress Json Float C S
  unfolding run_workflow
  probe_resolved none k p = p
  probe_resolved (some (c, wf)) k p =
      let (r, shared) = run_workflow observed wf c p.shared in
      after_probe clock k r (record p { shared = emit_probe observed clock c k r shared })

  unfoldable pub probe : String → Progress Json Float C S → Progress Json Float C S
  unfolding resolve probe_resolved
  probe k p = probe_resolved (resolve registry p.dict k) k p

  unfoldable pub probe_all : List String → Progress Json Float C S → Progress Json Float C S
  unfolding probe
  probe_all [] p = p
  probe_all (k ∷ keys) p = probe_all keys (probe k p)

  -- phase 4, for one ready case with its workflow, where both are there
  unfoldable pub execute_resolved :
      Option (Case Json × Workflow Json Float C S)
      → String
      → Progress Json Float C S
      → Progress Json Float C S
  unfolding run_workflow
  execute_resolved none k p = p
  execute_resolved (some (c, wf)) k p =
      let (r, shared) = run_workflow observed wf c p.shared in
      after_execution clock k r (record p { shared = shared })

  -- phase 4 in sequential mode, for one ready case
  unfoldable pub execute : String → Progress Json Float C S → Progress Json Float C S
  unfolding resolve execute_resolved
  execute k p = execute_resolved (resolve registry p.dict k) k p

  unfoldable pub execute_all : List String → Progress Json Float C S → Progress Json Float C S
  unfolding execute
  execute_all [] p = p
  execute_all (k ∷ keys) p = execute_all keys (execute k p)
