-- ===== src/Engine/Tick.antt =====
-- crates/workflow_engine/src/engine.rs: `tick`.
use tianshu_rs.Base.{
  String, Bool, true, false, Option, none, some, List, [], ◌∷◌, ◌++◌, if◌then◌else◌, is_empty,
  Result, ok, err,
}
use tianshu_rs.Base.HashMap
use tianshu_rs.Case.{Case, mc_run, mc_wait, mc_finish}
use tianshu_rs.Workflow.{PollPredicate, WorkflowResult, continues, waits, finishes}
use tianshu_rs.Registry.{WorkflowRegistry}
use tianshu_rs.Poll.{ResourceFetcher, evaluate}
use tianshu_rs.Engine.{
  ExecutionMode, sequential, parallel, TickResult, executed, idle, shutdown_requested,
  SchedulerEnvironment, Scheduler, Shared, TickClock, Workflow, partition, push_new,
}
use tianshu_rs.Engine.Phases.{Progress, update_case, run_workflow, resolve, probe_all, execute_all}

-- the polls of phase 3, each with its case: those without an intent, and those with one
abbrev has_intent : PollPredicate → Bool
has_intent poll = elim poll.intent_desc [ none ↦ false | some d ↦ true ]

abbrev pub select_polls : Bool → String → List PollPredicate → List (String × PollPredicate)
select_polls router k [] = []
select_polls router k (poll ∷ polls) =
    let rest = select_polls router k polls in
    if has_intent poll
    then (if router then (k, poll) ∷ rest else rest)
    else (if router then rest else (k, poll) ∷ rest)

unfoldable pub polls_of : Bool → List (String × List PollPredicate) → List (String × PollPredicate)
polls_of router [] = []
polls_of router ((k, polls) ∷ results) = select_polls router k polls ++ polls_of router results

-- phase 4 starts from the running cases, and adds the woken ones that are not among them
unfoldable pub ready_keys : List String → List String → List String
ready_keys ready [] = ready
ready_keys ready (k ∷ woken) = ready_keys (push_new ready k) woken

module _ {Json Float C S : Type 0} (clock : TickClock) where
  -- phase 3, for one poll: a match wakes its case
  unfoldable pub wake :
      ResourceFetcher Json
      → String × PollPredicate
      → Progress Json Float C S
      → Progress Json Float C S
  wake fetch (k, poll) p =
      if is_empty (evaluate fetch (poll ∷ []))
      then p
      else record (update_case (mc_run (clock.now k)) k p) { woken = push_new p.woken k }

  unfoldable pub wake_each :
      ResourceFetcher Json
      → List (String × PollPredicate)
      → Progress Json Float C S
      → Progress Json Float C S
  unfolding wake
  wake_each fetch [] p = p
  wake_each fetch (q ∷ polls) p = wake_each fetch polls (wake fetch q p)

  unfoldable pub wake_all :
      Option (ResourceFetcher Json) → Progress Json Float C S → Progress Json Float C S
  unfolding wake_each polls_of
  wake_all none p = p
  wake_all (some fetch) p = wake_each fetch (polls_of false p.polls ++ polls_of true p.polls) p

module _ {Json Float C S : Type 0} (registry : WorkflowRegistry Json (Workflow Json Float C S))
    (clock : TickClock) (observed : Bool) where
  -- what the result of a task changes, when it is joined
  abbrev pub after_task :
      String → Result WorkflowResult → Progress Json Float C S → Progress Json Float C S
  after_task k (ok continues) p = record p { any = true }
  after_task k (ok (waits polls)) p = record (update_case (mc_wait (clock.now k)) k p) {
    any = true;
  }
  after_task k (ok (finishes t d)) p = record (update_case (mc_finish (clock.now k) t d) k p) {
    any = true;
  }
  after_task k (err e) p = p

  unfoldable pub run_spawned :
      Option (Case Json × Workflow Json Float C S)
      → String
      → Progress Json Float C S
      → Progress Json Float C S
  unfolding run_workflow
  run_spawned none k p = p
  run_spawned (some (c, wf)) k p =
      let (r, shared) = run_workflow observed wf c p.shared in
      after_task k r (record p { shared = shared })

  -- The tasks of the parallel mode, spawned from the dictionary that phase 4 begins with.
  unfoldable pub run_task :
      (spawned_from : HashMap.HashMap String (Case Json))
      → String
      → Progress Json Float C S
      → Progress Json Float C S
  unfolding resolve run_spawned
  run_task spawned_from k p = run_spawned (resolve registry spawned_from k) k p

  unfoldable pub run_tasks :
      (spawned_from : HashMap.HashMap String (Case Json))
      → List String
      → Progress Json Float C S
      → Progress Json Float C S
  unfolding run_task
  run_tasks spawned_from [] p = p
  run_tasks spawned_from (k ∷ keys) p = run_tasks spawned_from keys (run_task spawned_from k p)

  -- `schedule` is the order in which the tasks of the parallel mode run, each to its end
  unfoldable pub execute_ready :
      ExecutionMode
      → (schedule : List String → List String) → List String
      → Progress Json Float C S
      → Progress Json Float C S
  unfolding run_tasks
  execute_ready sequential schedule ready p = execute_all registry clock observed ready p
  execute_ready parallel schedule ready p = run_tasks p.dict (schedule ready) p

  -- phases 1 to 3
  unfoldable pub wake_phase :
      Option (ResourceFetcher Json)
      → HashMap.HashMap String (Case Json)
      → Shared Json Float C S
      → Progress Json Float C S
  unfolding wake_all
  wake_phase fetcher dict shared = wake_all clock fetcher (
      probe_all registry clock observed (partition dict).waiting_keys
        (record { dict = dict; shared = shared; woken = []; polls = []; any = false }))

  unfoldable pub run_phases :
      ExecutionMode
      → (schedule : List String → List String) → Option (ResourceFetcher Json)
      → HashMap.HashMap String (Case Json)
      → Shared Json Float C S
      → Progress Json Float C S
  unfolding wake_phase execute_ready ready_keys
  run_phases mode schedule fetcher dict shared =
      let p = wake_phase fetcher dict shared in
      execute_ready mode schedule (ready_keys (partition dict).running_keys p.woken) p

-- what a tick returns and leaves
pub record Ticked (Json Float C S : Type 0) : Type 0 where
  pub result : TickResult
  pub scheduler : Scheduler
  pub env : SchedulerEnvironment Json
  pub shared : Shared Json Float C S

-- `shutdown` is what the signal says, where there is one
unfoldable pub tick :
    {Json Float C S : Type 0} (registry : WorkflowRegistry Json (Workflow Json Float C S))
    (clock : TickClock) (schedule : List String → List String)
    → Option (ResourceFetcher Json)
    → (shutdown : Option Bool) → Scheduler
    → SchedulerEnvironment Json
    → Shared Json Float C S
    → Ticked Json Float C S
unfolding run_phases
tick registry clock schedule fetcher (some true) s env shared = record {
  result = shutdown_requested;
  scheduler = s;
  env = env;
  shared = shared;
}
tick registry clock schedule fetcher _ s env shared =
    let p =
      run_phases registry clock s.observed env.execution_mode schedule fetcher env.current_case_dict
        shared in
    if is_empty env.current_case_dict
    then record {
      result = idle;
      scheduler = record s { woken_keys = [] };
      env = env;
      shared = shared;
    }
    else record {
      result = if p.any then executed else idle;
      scheduler = record s { woken_keys = p.woken };
      env = record env { current_case_dict = p.dict };
      shared = p.shared;
    }
