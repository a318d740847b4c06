-- ===== src/Engine/Modes.antt =====
-- crates/workflow_engine/src/engine.rs: the two modes of phase 4.
use tianshu_rs.Base.{
  String, Bool, true, false, if◌then◌else◌, is_empty, Bool-cases, inl, inr, Option, none, some,
  List, [], ◌∷◌, Result, ok, err, ◌≡◌, ◌≢◌, refl, sym, ◌∙◌, ap, All, string_eq,
}
use tianshu_rs.Base.HashMap
use tianshu_rs.Base.HashMap.{HashMap}
use tianshu_rs.Case.{Case, mc_wait, mc_finish}
use tianshu_rs.Workflow.{WorkflowResult, continues, waits, finishes}
use tianshu_rs.Registry.{WorkflowRegistry}
use tianshu_rs.Poll.{ResourceFetcher}
use tianshu_rs.Engine.{
  sequential, parallel, executed, idle, SchedulerEnvironment, Scheduler, Shared, TickClock,
  Workflow, partition, with_execution_mode,
}
use tianshu_rs.Engine.Tasks.{run_task-execute_resolved}
use tianshu_rs.Engine.Phases.{
  Progress, run_workflow, after_execution, resolve, execute, execute_all, execute_resolved,
}
use tianshu_rs.Engine.Tick.{ready_keys, run_tasks, execute_ready, wake_phase, run_phases, tick}
use tianshu_rs.Engine.Untouched.{Avoids, IsMap, keep_alter}
use tianshu_rs.Engine.Once.{AreDistinct, ready_once}

module _ {Json Float C S : Type 0} (registry : WorkflowRegistry Json (Workflow Json Float C S))
    (clock : TickClock) (observed : Bool) where
  after_execution_keeps :
      (j k : String) (r : Result WorkflowResult) (p : Progress Json Float C S)
      → j ≢ k
      → HashMap.get (after_execution clock j r p).dict k ≡ HashMap.get p.dict k
  after_execution_keeps j k (ok continues) p ne = refl
  after_execution_keeps j k (ok (waits polls)) p ne =
      keep_alter k (mc_wait (clock.now j)) j p.dict ne
  after_execution_keeps j k (ok (finishes t d)) p ne =
      keep_alter k (mc_finish (clock.now j) t d) j p.dict ne
  after_execution_keeps j k (err e) p ne = refl

  pub execute_resolved_keeps :
      (found : Option (Case Json × Workflow Json Float C S)) (j k : String)
      (p : Progress Json Float C S)
      → j ≢ k
      → HashMap.get (execute_resolved registry clock observed found j p).dict k
        ≡ HashMap.get p.dict k
  unfolding execute_resolved
  execute_resolved_keeps none j k p ne = refl
  execute_resolved_keeps (some (c, wf)) j k p ne =
      let (r, shared) = run_workflow observed wf c p.shared in
      after_execution_keeps j k r (record p { shared = shared }) ne

  pub resolve_of_get :
      (dict other : HashMap String (Case Json)) (k : String)
      → HashMap.get dict k ≡ HashMap.get other k
      → resolve registry dict k ≡ resolve registry other k
  unfolding resolve
  resolve_of_get dict other k h = rw (h, resolve) refl

  still_same :
      (spawned_from : HashMap String (Case Json)) (keys : List String) (k : String)
      (found : Option (Case Json × Workflow Json Float C S)) (p : Progress Json Float C S)
      → Avoids k keys
      → All (λ j. HashMap.get spawned_from j ≡ HashMap.get p.dict j) keys
      → All
          (λ j.
            HashMap.get spawned_from j
            ≡ HashMap.get (execute_resolved registry clock observed found k p).dict j)
          keys
  still_same spawned_from [] k found p a same = tt
  still_same spawned_from (j ∷ keys) k found p a same = (
    same.0 ∙ sym (execute_resolved_keeps found k j p (λ e. a.0 (sym e))),
    still_same spawned_from keys k found p a.1 same.1,
  )

  dict_agrees :
      (dict : HashMap String (Case Json)) (keys : List String)
      → All (λ k. HashMap.get dict k ≡ HashMap.get dict k) keys
  dict_agrees dict [] = tt
  dict_agrees dict (k ∷ keys) = (refl, dict_agrees dict keys)

  run_tasks-execute_all :
      (spawned_from : HashMap String (Case Json)) (keys : List String) (p : Progress Json Float C S)
      → AreDistinct keys
      → All (λ k. HashMap.get spawned_from k ≡ HashMap.get p.dict k) keys
      → run_tasks registry clock observed spawned_from keys p
        ≡ execute_all registry clock observed keys p
  unfolding run_tasks execute_all execute
  run_tasks-execute_all spawned_from [] p d same = refl
  run_tasks-execute_all spawned_from (k ∷ keys) p d same =
      let found = resolve registry p.dict k in
      let p' = execute_resolved registry clock observed found k p in
      rw
        (
          run_task-execute_resolved registry clock observed spawned_from k p,
          resolve_of_get spawned_from p.dict k same.0,
        )
        (run_tasks-execute_all spawned_from keys p' d.1
          (still_same spawned_from keys k found p d.0 same.1))

  -- In the parallel mode a set of distinct keys is executed as in the sequential mode, in the order in
  -- which the tasks run.
  pub execute_ready-parallel :
      (schedule : List String → List String) (ready : List String) (p : Progress Json Float C S)
      → AreDistinct (schedule ready)
      → execute_ready registry clock observed parallel schedule ready p
        ≡ execute_all registry clock observed (schedule ready) p
  unfolding execute_ready
  execute_ready-parallel schedule ready p d =
      run_tasks-execute_all p.dict (schedule ready) p d (dict_agrees p.dict (schedule ready))

  -- Over a dictionary with one entry for a key, where the tasks run in the order in which they are
  -- spawned, the phases of the parallel mode leave what those of the sequential mode leave.
  run_phases-modes :
      (fetcher : Option (ResourceFetcher Json)) (dict : HashMap String (Case Json))
      (shared : Shared Json Float C S)
      → IsMap dict
      → run_phases registry clock observed parallel (λ ks. ks) fetcher dict shared
        ≡ run_phases registry clock observed sequential (λ ks. ks) fetcher dict shared
  unfolding run_phases execute_ready
  run_phases-modes fetcher dict shared u =
      let p = wake_phase registry clock observed fetcher dict shared in
      execute_ready-parallel (λ ks. ks) (ready_keys (partition dict).running_keys p.woken) p
        (ready_once dict p.woken u)

module _ {Json Float C S : Type 0} (registry : WorkflowRegistry Json (Workflow Json Float C S))
    (clock : TickClock) where
  unstopped_modes_agree :
      (fetcher : Option (ResourceFetcher Json)) (s : Scheduler) (env : SchedulerEnvironment Json)
      (shared : Shared Json Float C S)
      → IsMap env.current_case_dict
      → let a =
          tick registry clock (λ ks. ks) fetcher none s (with_execution_mode env parallel) shared in
        let b =
          tick registry clock
            (λ ks. ks)
            fetcher
            none
            s
            (with_execution_mode env sequential)
            shared in
        (a.result ≡ b.result)
        × (a.scheduler ≡ b.scheduler)
        × (a.env.current_case_dict ≡ b.env.current_case_dict)
        × (a.shared ≡ b.shared)
  unfolding tick with_execution_mode
  unstopped_modes_agree fetcher s env shared u =
      elim (Bool-cases (is_empty env.current_case_dict)) [
        | inl h ↦ rw (h, tick) (refl, refl, refl, refl)
        | inr h ↦
            let same =
              run_phases-modes registry clock s.observed fetcher env.current_case_dict shared u in
            rw (h, tick)
              (
                ap (λ p. if p.any then executed else idle) same,
                ap (λ p. record s { woken_keys = p.woken }) same,
                ap (λ p. p.dict) same,
                ap (λ p. p.shared) same,
              )
      ]

  -- Over a dictionary with one entry for a key, where the tasks run in the order in which they are
  -- spawned, a tick in parallel mode returns what a tick in sequential mode returns, and leaves the
  -- scheduler, the cases and the stores as it does.
  pub tick_modes_agree :
      (fetcher : Option (ResourceFetcher Json)) (shutdown : Option Bool) (s : Scheduler)
      (env : SchedulerEnvironment Json) (shared : Shared Json Float C S)
      → IsMap env.current_case_dict
      → let a =
          tick registry clock
            (λ ks. ks)
            fetcher
            shutdown
            s
            (with_execution_mode env parallel)
            shared in
        let b =
          tick registry clock
            (λ ks. ks)
            fetcher
            shutdown
            s
            (with_execution_mode env sequential)
            shared in
        (a.result ≡ b.result)
        × (a.scheduler ≡ b.scheduler)
        × (a.env.current_case_dict ≡ b.env.current_case_dict)
        × (a.shared ≡ b.shared)
  unfolding tick with_execution_mode
  tick_modes_agree fetcher (some true) s env shared u = (refl, refl, refl, refl)
  tick_modes_agree fetcher (some false) s env shared u =
      unstopped_modes_agree fetcher s env shared u
  tick_modes_agree fetcher none s env shared u = unstopped_modes_agree fetcher s env shared u
