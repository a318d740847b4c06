-- ===== src/Engine/Filed/Ticks.antt =====
-- crates/workflow_engine/src/engine.rs: what every tick keeps of the dictionary of cases, phase by
-- phase, and the environments that ticks lead to.
use tianshu_rs.Base.{
  ℕ, String, Bool, true, false, Option, none, some, List, [], ◌∷◌, ◌++◌, Result, ok, err, ◌≡◌, refl,
  ◌∙◌, arith, string_eq, Bool-cases, inl, inr, is_empty,
}
use tianshu_rs.Base.HashMap
use tianshu_rs.Base.HashMap.{HashMap, keys-alter}
use tianshu_rs.Case.{Case, mc_run, mc_wait, mc_finish}
use tianshu_rs.Session.{Session}
use tianshu_rs.Workflow.{PollPredicate, WorkflowResult, continues, waits, finishes}
use tianshu_rs.Registry.{WorkflowRegistry}
use tianshu_rs.Poll.{ResourceFetcher}
use tianshu_rs.Engine.{
  ExecutionMode, sequential, parallel, SchedulerEnvironment, Scheduler, Shared, TickClock, Workflow,
  partition, evaluate, dict_of, new_environment, with_execution_mode,
}
use tianshu_rs.Engine.Tasks.{run_task-execute_resolved}
use tianshu_rs.Engine.Phases.{
  Progress, emit_probe, update_case, run_workflow, after_probe, after_execution, resolve, probe,
  probe_all, execute, execute_all, probe_resolved, execute_resolved,
}
use tianshu_rs.Engine.Tick.{
  polls_of, wake, wake_each, wake_all, run_tasks, execute_ready, wake_phase, run_phases, tick,
}
use tianshu_rs.Engine.Untouched.{IsMap}
use tianshu_rs.Engine.Filed.{
  IsFiled, IsFiledAs, IsMap-keys, keys-IsMap, dict_of-IsMap, alter-IsFiled,
}

module _ {Json Float C S : Type 0} (ks : List String) where
  abbrev Keeps : Progress Json Float C S → Type 0
  Keeps p = IsFiledAs ks p.dict

  update_case-Keeps :
      (f : Case Json → Case Json) (k : String) (p : Progress Json Float C S)
      → ((c : Case Json) → (f c).case_key ≡ c.case_key)
      → Keeps p
      → Keeps (update_case f k p)
  update_case-Keeps f k p own h = (keys-alter p.dict k f ∙ h.0, alter-IsFiled f k p.dict own h.1)

  run-Keeps :
      (now : ℕ) (k : String) (p : Progress Json Float C S)
      → Keeps p
      → Keeps (update_case (mc_run now) k p)
  unfolding mc_run
  run-Keeps now k p h = update_case-Keeps (mc_run now) k p (λ c. refl) h

  wait-Keeps :
      (now : ℕ) (k : String) (p : Progress Json Float C S)
      → Keeps p
      → Keeps (update_case (mc_wait now) k p)
  unfolding mc_wait
  wait-Keeps now k p h = update_case-Keeps (mc_wait now) k p (λ c. refl) h

  finish-Keeps :
      (now : ℕ) (t d k : String) (p : Progress Json Float C S)
      → Keeps p
      → Keeps (update_case (mc_finish now t d) k p)
  unfolding mc_finish
  finish-Keeps now t d k p h = update_case-Keeps (mc_finish now t d) k p (λ c. refl) h

module _ {Json Float C S : Type 0} (registry : WorkflowRegistry Json (Workflow Json Float C S))
    (clock : TickClock) (observed : Bool) (ks : List String) where
  after_probe-Keeps :
      (j : String) (r : Result WorkflowResult) (p : Progress Json Float C S)
      → Keeps ks p
      → Keeps ks (after_probe clock j r p)
  after_probe-Keeps j (ok continues) p h = run-Keeps ks (clock.now j) j p h
  after_probe-Keeps j (ok (waits [])) p h = h
  after_probe-Keeps j (ok (waits (q ∷ qs))) p h = h
  after_probe-Keeps j (ok (finishes t d)) p h = finish-Keeps ks (clock.now j) t d j p h
  after_probe-Keeps j (err e) p h = h

  after_execution-Keeps :
      (j : String) (r : Result WorkflowResult) (p : Progress Json Float C S)
      → Keeps ks p
      → Keeps ks (after_execution clock j r p)
  after_execution-Keeps j (ok continues) p h = h
  after_execution-Keeps j (ok (waits polls)) p h = wait-Keeps ks (clock.now j) j p h
  after_execution-Keeps j (ok (finishes t d)) p h = finish-Keeps ks (clock.now j) t d j p h
  after_execution-Keeps j (err e) p h = h

  probe_resolved-Keeps :
      (found : Option (Case Json × Workflow Json Float C S)) (j : String)
      (p : Progress Json Float C S)
      → Keeps ks p
      → Keeps ks (probe_resolved registry clock observed found j p)
  unfolding probe_resolved
  probe_resolved-Keeps none j p h = h
  probe_resolved-Keeps (some (c, wf)) j p h =
      let (r, shared) = run_workflow observed wf c p.shared in
      after_probe-Keeps j r (record p { shared = emit_probe observed clock c j r shared }) h

  execute_resolved-Keeps :
      (found : Option (Case Json × Workflow Json Float C S)) (j : String)
      (p : Progress Json Float C S)
      → Keeps ks p
      → Keeps ks (execute_resolved registry clock observed found j p)
  unfolding execute_resolved
  execute_resolved-Keeps none j p h = h
  execute_resolved-Keeps (some (c, wf)) j p h =
      let (r, shared) = run_workflow observed wf c p.shared in
      after_execution-Keeps j r (record p { shared = shared }) h

  probe_all-Keeps :
      (keys : List String) (p : Progress Json Float C S)
      → Keeps ks p
      → Keeps ks (probe_all registry clock observed keys p)
  unfolding probe_all probe
  probe_all-Keeps [] p h = h
  probe_all-Keeps (j ∷ keys) p h =
      probe_all-Keeps keys _ (probe_resolved-Keeps (resolve registry p.dict j) j p h)

  execute_all-Keeps :
      (keys : List String) (p : Progress Json Float C S)
      → Keeps ks p
      → Keeps ks (execute_all registry clock observed keys p)
  unfolding execute_all execute
  execute_all-Keeps [] p h = h
  execute_all-Keeps (j ∷ keys) p h =
      execute_all-Keeps keys _ (execute_resolved-Keeps (resolve registry p.dict j) j p h)

  run_tasks-Keeps :
      (dict : HashMap String (Case Json)) (keys : List String) (p : Progress Json Float C S)
      → Keeps ks p
      → Keeps ks (run_tasks registry clock observed dict keys p)
  unfolding run_tasks
  run_tasks-Keeps dict [] p h = h
  run_tasks-Keeps dict (j ∷ keys) p h = run_tasks-Keeps dict keys _ (
      rw (run_task-execute_resolved registry clock observed dict j p)
        (execute_resolved-Keeps (resolve registry dict j) j p h))

  execute_ready-Keeps :
      (mode : ExecutionMode) (schedule : List String → List String) (ready : List String)
      (p : Progress Json Float C S)
      → Keeps ks p
      → Keeps ks (execute_ready registry clock observed mode schedule ready p)
  unfolding execute_ready
  execute_ready-Keeps sequential schedule ready p h = execute_all-Keeps ready p h
  execute_ready-Keeps parallel schedule ready p h = run_tasks-Keeps p.dict (schedule ready) p h

module _ {Json Float C S : Type 0} (clock : TickClock) (ks : List String) where
  wake-Keeps :
      (fetch : ResourceFetcher Json) (q : String × PollPredicate) (p : Progress Json Float C S)
      → Keeps ks p
      → Keeps ks (wake clock fetch q p)
  unfolding wake
  wake-Keeps fetch (j, poll) p h = elim (Bool-cases (is_empty (evaluate fetch (poll ∷ [])))) [
    | inl idle ↦ rw idle h
    | inr hit ↦ rw hit (run-Keeps ks (clock.now j) j p h)
  ]

  wake_each-Keeps :
      (fetch : ResourceFetcher Json) (polls : List (String × PollPredicate))
      (p : Progress Json Float C S)
      → Keeps ks p
      → Keeps ks (wake_each clock fetch polls p)
  unfolding wake_each
  wake_each-Keeps fetch [] p h = h
  wake_each-Keeps fetch (q ∷ polls) p h =
      wake_each-Keeps fetch polls (wake clock fetch q p) (wake-Keeps fetch q p h)

  wake_all-Keeps :
      (fetcher : Option (ResourceFetcher Json)) (p : Progress Json Float C S)
      → Keeps ks p
      → Keeps ks (wake_all clock fetcher p)
  unfolding wake_all
  wake_all-Keeps none p h = h
  wake_all-Keeps (some fetch) p h =
      wake_each-Keeps fetch (polls_of false p.polls ++ polls_of true p.polls) p h

module _ {Json Float C S : Type 0} (registry : WorkflowRegistry Json (Workflow Json Float C S))
    (ks : List String) where
  run_phases-IsFiledAs :
      (clock : TickClock) (observed : Bool) (mode : ExecutionMode)
      (schedule : List String → List String) (fetcher : Option (ResourceFetcher Json))
      (dict : HashMap String (Case Json)) (shared : Shared Json Float C S)
      → IsFiledAs ks dict
      → IsFiledAs ks (run_phases registry clock observed mode schedule fetcher dict shared).dict
  unfolding run_phases wake_phase
  run_phases-IsFiledAs clock observed mode schedule fetcher dict shared h =
      execute_ready-Keeps registry clock observed ks mode schedule _ _ (
        wake_all-Keeps clock ks fetcher _ (
          probe_all-Keeps registry clock observed ks (partition dict).waiting_keys
            (record { dict = dict; shared = shared; woken = []; polls = []; any = false }) h))

  tick-IsFiledAs :
      (clock : TickClock) (schedule : List String → List String)
      (fetcher : Option (ResourceFetcher Json)) (shutdown : Option Bool) (s : Scheduler)
      (env : SchedulerEnvironment Json) (shared : Shared Json Float C S)
      → IsFiledAs ks env.current_case_dict
      → IsFiledAs ks
          (tick registry clock schedule fetcher shutdown s env shared).env.current_case_dict
  unfolding tick
  tick-IsFiledAs clock schedule fetcher (some true) s env shared h = h
  tick-IsFiledAs clock schedule fetcher (some false) s env shared h =
      let after =
        run_phases-IsFiledAs clock s.observed env.execution_mode schedule fetcher
          env.current_case_dict shared h in
      ground arith
  tick-IsFiledAs clock schedule fetcher none s env shared h =
      let after =
        run_phases-IsFiledAs clock s.observed env.execution_mode schedule fetcher
          env.current_case_dict shared h in
      ground arith

-- The environments that the ticks of one registry lead to from that of a session, whatever the
-- scheduler, the clock, the contents of the stores and the order of the tasks are at each tick.
pub data Runs {Json Float C S : Type 0} (registry : WorkflowRegistry Json (Workflow Json Float C S))
    (session : Session Json) (cases : List (Case Json)) : SchedulerEnvironment Json → Type 0 where
  begins : Runs registry session cases (new_environment session cases)
  switches :
      {env : SchedulerEnvironment Json} (mode : ExecutionMode)
      → Runs registry session cases env
      → Runs registry session cases (with_execution_mode env mode)
  ticks :
      {env : SchedulerEnvironment Json} (clock : TickClock) (schedule : List String → List String)
      (fetcher : Option (ResourceFetcher Json)) (shutdown : Option Bool) (s : Scheduler)
      (shared : Shared Json Float C S)
      → Runs registry session cases env
      → Runs registry session cases (tick registry clock schedule fetcher shutdown s env shared).env

module _ {Json Float C S : Type 0} (registry : WorkflowRegistry Json (Workflow Json Float C S))
    (session : Session Json) (cases : List (Case Json)) where
  tick-session :
      (clock : TickClock) (schedule : List String → List String)
      (fetcher : Option (ResourceFetcher Json)) (shutdown : Option Bool) (s : Scheduler)
      (env : SchedulerEnvironment Json) (shared : Shared Json Float C S)
      → (tick registry clock schedule fetcher shutdown s env shared).env.session ≡ env.session
  unfolding tick
  tick-session clock schedule fetcher (some true) s env shared = refl
  tick-session clock schedule fetcher (some false) s env shared = ground arith
  tick-session clock schedule fetcher none s env shared = ground arith

  Runs-IsFiledAs :
      {env : SchedulerEnvironment Json}
      → Runs registry session cases env
      → IsFiledAs
          (HashMap.keys (new_environment session cases).current_case_dict)
          env.current_case_dict
        × (env.session ≡ session)
  unfolding new_environment with_execution_mode
  Runs-IsFiledAs begins = ((refl, (dict_of-IsMap [] cases (tt, tt)).1), refl)
  Runs-IsFiledAs (switches mode r) = Runs-IsFiledAs r
  Runs-IsFiledAs (ticks {env} clock schedule fetcher shutdown s shared r) =
      let before = Runs-IsFiledAs r in
      (
        tick-IsFiledAs registry _ clock schedule fetcher shutdown s env shared before.0,
        tick-session clock schedule fetcher shutdown s env shared ∙ before.1,
      )

  -- The case dictionary that ticks lead to, in either mode and with any shutdown signal, has the
  -- keys of the dictionary that the session began with, each with one entry, and every case stands
  -- under its own key; the environment is still that of the session.
  pub Runs-IsFiled :
      {env : SchedulerEnvironment Json}
      → Runs registry session cases env
      → (HashMap.keys env.current_case_dict
          ≡ HashMap.keys (new_environment session cases).current_case_dict)
        × IsFiled env.current_case_dict
        × IsMap env.current_case_dict
        × (env.session ≡ session)
  unfolding new_environment
  Runs-IsFiled {env} r =
      let kept = Runs-IsFiledAs r in
      let first = IsMap-keys (dict_of [] cases) (dict_of-IsMap [] cases (tt, tt)).0 in
      (kept.0.0, kept.0.1, keys-IsMap env.current_case_dict (rw (← kept.0.0) at first), kept.1)
