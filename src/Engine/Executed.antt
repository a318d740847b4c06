-- ===== src/Engine/Executed.antt =====
-- crates/workflow_engine/src/engine.rs: what phase 4 does to each case.
use tianshu_rs.Base.{
  ℕ, String, Bool, true, false, ◌||◌, Option, none, some, List, [], ◌∷◌, Result, ok, err, ◌≡◌, ◌≢◌,
  refl, ◌∙◌, arith, ◌==◌, string_eq, is_empty, Bool-cases, Option-cases, inl, inr,
}
use tianshu_rs.Base.HashMap
use tianshu_rs.Base.HashMap.{HashMap, get-alter}
use tianshu_rs.Case.{Case, mc_wait, mc_finish}
use tianshu_rs.Workflow.{WorkflowResult, continues, waits, finishes}
use tianshu_rs.Registry
use tianshu_rs.Registry.{WorkflowRegistry}
use tianshu_rs.Poll.{ResourceFetcher}
use tianshu_rs.Engine.{
  ExecutionMode, sequential, parallel, SchedulerEnvironment, Scheduler, Shared, TickClock, Workflow,
  partition, contains,
}
use tianshu_rs.Engine.Phases.{
  Progress, run_workflow, after_execution, resolve, probe_all, execute, execute_all,
  execute_resolved,
}
use tianshu_rs.Engine.Tick.{execute_ready, wake_phase, wake_all, run_phases, tick}
use tianshu_rs.Engine.Untouched.{IsMap}
use tianshu_rs.Engine.Once.{AreDistinct, is_found_running, ready_exactly, contains-Avoids}
use tianshu_rs.Engine.Modes.{execute_resolved_keeps, resolve_of_get, execute_ready-parallel}

-- the case that an execution leaves, from its result
abbrev pub left_case : {Json : Type 0} → ℕ → Result WorkflowResult → Case Json → Case Json
left_case now (ok continues) c = c
left_case now (ok (waits polls)) c = mc_wait now c
left_case now (ok (finishes t d)) c = mc_finish now t d c
left_case now (err e) c = c

module _ {Json Float C S : Type 0} (clock : TickClock) (observed : Bool) (k : String) where
  -- A case that is ready and has a workflow is left as one run of that workflow, over the stores and
  -- the events of some moment, leaves it; every other case is left as it was.
  abbrev pub IsExecutedOnce :
      (ready : Bool)
      → (found : Option (Case Json × Workflow Json Float C S)) → (before after : Option (Case Json))
      → Type 0
  IsExecutedOnce true (some (c, wf)) before after =
      (s : Shared Json Float C S) × (after
        ≡ some (left_case (clock.now k) (run_workflow observed wf c s).0 c))
  IsExecutedOnce _ _ before after = after ≡ before

module _ {Json Float C S : Type 0} (registry : WorkflowRegistry Json (Workflow Json Float C S))
    (clock : TickClock) (observed : Bool) (k : String) where
  after_execution-left :
      (r : Result WorkflowResult) (c : Case Json) (p : Progress Json Float C S)
      → HashMap.get p.dict k ≡ some c
      → HashMap.get (after_execution clock k r p).dict k ≡ some (left_case (clock.now k) r c)
  after_execution-left (ok continues) c p h = h
  after_execution-left (ok (waits polls)) c p h =
      ground (arith, get-alter p.dict k k (mc_wait (clock.now k)), string_eq.same_iff k k)
  after_execution-left (ok (finishes t d)) c p h =
      ground (arith, get-alter p.dict k k (mc_finish (clock.now k) t d), string_eq.same_iff k k)
  after_execution-left (err e) c p h = h

  resolve-get :
      (dict : HashMap String (Case Json)) (c : Case Json) (wf : Workflow Json Float C S)
      → resolve registry dict k ≡ some (c, wf)
      → HashMap.get dict k ≡ some c
  unfolding resolve
  resolve-get dict c wf h = elim (Option-cases (HashMap.get dict k)) [
    | inl p ↦ absurd (ground (arith, p, h))
    | inr (d, p) ↦ elim (Option-cases (Registry.get registry d.workflow_code d)) [
      | inl q ↦ absurd (ground (arith, rw q at (rw (p, resolve) at h)))
      | inr (v, q) ↦
          let same : some (d, v) ≡ some (c, wf) = rw q at (rw (p, resolve) at h) in
          ground (arith, p, same)
    ]
  ]

  abbrev Once : Bool → HashMap String (Case Json) → HashMap String (Case Json) → Type 0
  Once ready before after =
      IsExecutedOnce clock observed k ready (resolve registry before k) (HashMap.get before k)
        (HashMap.get after k)

  execute-once :
      (found : Option (Case Json × Workflow Json Float C S)) (p : Progress Json Float C S)
      → resolve registry p.dict k ≡ found
      → IsExecutedOnce clock observed k true found
          (HashMap.get p.dict k)
          (HashMap.get (execute_resolved registry clock observed found k p).dict k)
  unfolding execute_resolved
  execute-once none p h = refl
  execute-once (some (c, wf)) p h =
      let (r, shared) = run_workflow observed wf c p.shared in
      (
        p.shared,
        after_execution-left r c (record p { shared = shared }) (resolve-get p.dict c wf h),
      )

  -- what is done after the execution changes nothing more
  then-kept :
      (found : Option (Case Json × Workflow Json Float C S)) (ready : Bool)
      (before after later : Option (Case Json))
      → later ≡ after
      → IsExecutedOnce clock observed k ready found before after
      → IsExecutedOnce clock observed k ready found before later
  then-kept found ready before after later e h = rw e h

  execute_all-Once :
      (keys : List String) (p : Progress Json Float C S)
      → AreDistinct keys
      → Once (contains keys k) p.dict (execute_all registry clock observed keys p).dict
  unfolding execute_all execute contains
  execute_all-Once [] p d = refl
  execute_all-Once (j ∷ keys) p d =
      let p' = execute registry clock observed j p in
      let rest = execute_all-Once keys p' d.1 in
      elim (Bool-cases (j == k)) [
        | inl same ↦
            let names : j ≡ k = (string_eq.same_iff j k).0 same in
            let absent : contains keys k ≡ false = rw names at (contains-Avoids keys j d.0) in
            let kept : HashMap.get (execute_all registry clock observed keys p').dict k
                ≡ HashMap.get p'.dict k =
              rw absent at rest in
            let found = resolve registry p.dict k in
            rw (same, names)
              (then-kept found true (HashMap.get p.dict k) _ _ (rw names at kept)
                (execute-once found p refl))
        | inr other ↦
            let apart : j ≢ k = ground (arith, other, string_eq.same_iff j k) in
            let before =
              execute_resolved_keeps registry clock observed (resolve registry p.dict j) j k p
                apart in
            let found = resolve_of_get registry clock observed p'.dict p.dict k before in
            rw other (rw (found, before) at rest)
      ]

  -- the order of the tasks of the parallel mode is one of the same keys
  abbrev pub Reorders : (List String → List String) → Type 0
  Reorders schedule =
      (keys : List String)
      → AreDistinct keys
      → AreDistinct (schedule keys) × (contains (schedule keys) k ≡ contains keys k)

  execute_ready-Once :
      (mode : ExecutionMode) (schedule : List String → List String) (keys : List String)
      (p : Progress Json Float C S)
      → Reorders schedule
      → AreDistinct keys
      → Once
          (contains keys k)
          p.dict
          (execute_ready registry clock observed mode schedule keys p).dict
  unfolding execute_ready
  execute_ready-Once sequential schedule keys p order d = execute_all-Once keys p d
  execute_ready-Once parallel schedule keys p order d =
      rw (execute_ready-parallel registry clock observed schedule keys p (order keys d).0)
        (rw (order keys d).1 at (execute_all-Once (schedule keys) p (order keys d).0))

  after_execution-woken :
      (j : String) (r : Result WorkflowResult) (p : Progress Json Float C S)
      → (after_execution clock j r p).woken ≡ p.woken
  after_execution-woken j (ok continues) p = refl
  after_execution-woken j (ok (waits polls)) p = refl
  after_execution-woken j (ok (finishes t d)) p = refl
  after_execution-woken j (err e) p = refl

  execute_resolved-woken :
      (found : Option (Case Json × Workflow Json Float C S)) (j : String)
      (p : Progress Json Float C S)
      → (execute_resolved registry clock observed found j p).woken ≡ p.woken
  unfolding execute_resolved
  execute_resolved-woken none j p = refl
  execute_resolved-woken (some (c, wf)) j p =
      let (r, shared) = run_workflow observed wf c p.shared in
      after_execution-woken j r (record p { shared = shared })

  execute_all-woken :
      (keys : List String) (p : Progress Json Float C S)
      → (execute_all registry clock observed keys p).woken ≡ p.woken
  unfolding execute_all execute
  execute_all-woken [] p = refl
  execute_all-woken (j ∷ keys) p =
      execute_all-woken keys (execute registry clock observed j p)
      ∙ execute_resolved-woken (resolve registry p.dict j) j p

  execute_ready-woken :
      (mode : ExecutionMode) (schedule : List String → List String) (keys : List String)
      (p : Progress Json Float C S)
      → Reorders schedule
      → AreDistinct keys
      → (execute_ready registry clock observed mode schedule keys p).woken ≡ p.woken
  unfolding execute_ready
  execute_ready-woken sequential schedule keys p order d = execute_all-woken keys p
  execute_ready-woken parallel schedule keys p order d =
      rw (execute_ready-parallel registry clock observed schedule keys p (order keys d).0)
        (execute_all-woken (schedule keys) p)

  run_phases-Once :
      (mode : ExecutionMode) (schedule : List String → List String)
      (fetcher : Option (ResourceFetcher Json)) (dict : HashMap String (Case Json))
      (shared : Shared Json Float C S)
      → Reorders schedule
      → IsMap dict
      → let p = wake_phase registry clock observed fetcher dict shared in
        let q = run_phases registry clock observed mode schedule fetcher dict shared in
        Once (is_found_running (HashMap.get dict k) || contains q.woken k) p.dict q.dict
  unfolding run_phases
  run_phases-Once mode schedule fetcher dict shared order u =
      let p = wake_phase registry clock observed fetcher dict shared in
      let ready = ready_exactly dict p.woken u in
      rw (execute_ready-woken mode schedule _ p order ready.0)
        (rw (ready.1 k) at (execute_ready-Once mode schedule _ p order ready.0))

  wake_phase-empty :
      (fetcher : Option (ResourceFetcher Json)) (dict : HashMap String (Case Json))
      (shared : Shared Json Float C S)
      → is_empty dict ≡ true
      → IsExecutedOnce clock observed k
          (is_found_running (HashMap.get dict k) || contains [] k)
          (resolve registry (wake_phase registry clock observed fetcher dict shared).dict k)
          (HashMap.get (wake_phase registry clock observed fetcher dict shared).dict k)
          (HashMap.get dict k)
  unfolding wake_phase wake_all probe_all HashMap.get partition contains
  wake_phase-empty none [] shared e = refl
  wake_phase-empty (some fetch) [] shared e = refl
  wake_phase-empty fetcher ((j, c) ∷ dict) shared e = absurd (ground (arith, e))

module _ {Json Float C S : Type 0} (registry : WorkflowRegistry Json (Workflow Json Float C S))
    (clock : TickClock) (k : String) where
  unstopped_tick_once :
      (schedule : List String → List String) (fetcher : Option (ResourceFetcher Json))
      (s : Scheduler) (env : SchedulerEnvironment Json) (shared : Shared Json Float C S)
      → Reorders registry clock s.observed k schedule
      → IsMap env.current_case_dict
      → let t = tick registry clock schedule fetcher none s env shared in
        let p = wake_phase registry clock s.observed fetcher env.current_case_dict shared in
        IsExecutedOnce clock s.observed k
          (is_found_running (HashMap.get env.current_case_dict k)
            || contains t.scheduler.woken_keys k)
          (resolve registry p.dict k)
          (HashMap.get p.dict k)
          (HashMap.get t.env.current_case_dict k)
  unfolding tick
  unstopped_tick_once schedule fetcher s env shared order u =
      elim (Bool-cases (is_empty env.current_case_dict)) [
        | inl h ↦
            rw (h, tick)
              (wake_phase-empty registry clock s.observed k fetcher env.current_case_dict shared h)
        | inr h ↦
            rw (h, tick)
              (run_phases-Once registry clock s.observed k env.execution_mode schedule fetcher
                env.current_case_dict shared order u)
      ]

  -- Where no shutdown is requested, over a dictionary with one entry for a key, and where the tasks
  -- of the parallel mode run in some order of their keys, a tick treats the case of every key so.
  -- Where it is active and running at the start of the tick, or is woken by a probe or a poll, and is
  -- there with a registered workflow when phase 4 begins, phase 4 leaves it as one run of that workflow
  -- on the case as it is then does, over some contents of the stores, also where it is woken twice. In
  -- every other case phase 4 leaves it as it was.
  pub tick_executes_once :
      (schedule : List String → List String) (fetcher : Option (ResourceFetcher Json))
      (shutdown : Option Bool) (s : Scheduler) (env : SchedulerEnvironment Json)
      (shared : Shared Json Float C S)
      → shutdown ≢ some true
      → Reorders registry clock s.observed k schedule
      → IsMap env.current_case_dict
      → let t = tick registry clock schedule fetcher shutdown s env shared in
        let p = wake_phase registry clock s.observed fetcher env.current_case_dict shared in
        IsExecutedOnce clock s.observed k
          (is_found_running (HashMap.get env.current_case_dict k)
            || contains t.scheduler.woken_keys k)
          (resolve registry p.dict k)
          (HashMap.get p.dict k)
          (HashMap.get t.env.current_case_dict k)
  unfolding tick
  tick_executes_once schedule fetcher none s env shared go order u =
      unstopped_tick_once schedule fetcher s env shared order u
  tick_executes_once schedule fetcher (some false) s env shared go order u =
      unstopped_tick_once schedule fetcher s env shared order u
  tick_executes_once schedule fetcher (some true) s env shared go order u = absurd (go refl)
