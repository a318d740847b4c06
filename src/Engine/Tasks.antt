-- ===== src/Engine/Tasks.antt =====
-- crates/workflow_engine/src/engine.rs: a task of the parallel mode beside an execution of the
-- sequential mode.
use tianshu_rs.Base.{String, Bool, Option, none, some, Result, ok, err, ◌≡◌, refl}
use tianshu_rs.Base.HashMap.{HashMap}
use tianshu_rs.Case.{Case}
use tianshu_rs.Workflow.{WorkflowResult, continues, waits, finishes}
use tianshu_rs.Registry.{WorkflowRegistry}
use tianshu_rs.Engine.{TickClock, Workflow}
use tianshu_rs.Engine.Phases.{Progress, run_workflow, resolve, after_execution, execute_resolved}
use tianshu_rs.Engine.Tick.{after_task, run_spawned, run_task}

module _ {Json Float C S : Type 0} (registry : WorkflowRegistry Json (Workflow Json Float C S))
    (clock : TickClock) (observed : Bool) where
  after_task-after_execution :
      (k : String) (r : Result WorkflowResult) (p : Progress Json Float C S)
      → after_task registry clock observed k r p ≡ after_execution clock k r p
  after_task-after_execution k (ok continues) p = refl
  after_task-after_execution k (ok (waits polls)) p = refl
  after_task-after_execution k (ok (finishes t d)) p = refl
  after_task-after_execution k (err e) p = refl

  run_spawned-execute_resolved :
      (found : Option (Case Json × Workflow Json Float C S)) (k : String)
      (p : Progress Json Float C S)
      → run_spawned registry clock observed found k p
        ≡ execute_resolved registry clock observed found k p
  unfolding run_spawned execute_resolved
  run_spawned-execute_resolved none k p = refl
  run_spawned-execute_resolved (some (c, wf)) k p =
      let (r, shared) = run_workflow observed wf c p.shared in
      after_task-after_execution k r (record p { shared = shared })

  -- A task changes what an execution of its case, as it was when the task was spawned, changes.
  pub run_task-execute_resolved :
      (spawned_from : HashMap String (Case Json)) (k : String) (p : Progress Json Float C S)
      → run_task registry clock observed spawned_from k p
        ≡ execute_resolved registry clock observed (resolve registry spawned_from k) k p
  unfolding run_task
  run_task-execute_resolved spawned_from k p =
      run_spawned-execute_resolved (resolve registry spawned_from k) k p
