-- ===== src/Engine/Untouched.antt =====
-- crates/workflow_engine/src/engine.rs: a tick changes no case that it may not run.
use tianshu_rs.Base.{
  String, Bool, true, false, Option, none, some, List, [], ◌∷◌, Result, ok, err, ◌≡◌, ◌≢◌, refl,
  ◌∙◌, arith, ◌==◌, string_eq, if◌then◌else◌, All, All-append, Bool-cases, inl, inr, is_empty,
}
use tianshu_rs.Base.HashMap
use tianshu_rs.Base.HashMap.{HashMap, get-insert, get-alter, keys-alter}
use tianshu_rs.Case.{Case, is_active, mc_run, mc_wait, mc_finish}
use tianshu_rs.Workflow.{PollPredicate, WorkflowResult, continues, waits, finishes}
use tianshu_rs.Registry.{WorkflowRegistry}
use tianshu_rs.Poll.{ResourceFetcher}
use tianshu_rs.Engine.{
  ExecutionMode, sequential, parallel, SchedulerEnvironment, Scheduler, Shared, TickClock, Workflow,
  partition, contains, push_new, evaluate,
}
use tianshu_rs.Engine.Tasks.{run_task-execute_resolved}
use tianshu_rs.Engine.Phases.{
  Progress, update_case, run_workflow, after_probe, after_execution, resolve, probe, probe_all,
  execute, execute_all, emit_probe, probe_resolved, execute_resolved,
}
use tianshu_rs.Engine.Tick.{
  polls_of, select_polls, ready_keys, wake, wake_each, wake_all, run_tasks, execute_ready,
  wake_phase, run_phases, tick,
}

-- no key of the list is `k`
abbrev pub Avoids : String → List String → Type 0
Avoids k = All (λ j. j ≢ k)

module _ {Json : Type 0} where
  -- Each entry is the one that its key finds: no key has two entries.
  abbrev pub IsMap : HashMap String (Case Json) → Type 0
  IsMap [] = Unit
  IsMap ((k, c) ∷ rest) = Avoids k (HashMap.keys rest) × IsMap rest

  get_absent :
      (k : String) (m : HashMap String (Case Json))
      → Avoids k (HashMap.keys m)
      → HashMap.get m k ≡ none
  unfolding HashMap.get
  get_absent k [] a = refl
  get_absent k ((j, c) ∷ m) a = ground (arith, string_eq.same_iff j k, get_absent k m a.1)

  pub partition_absent :
      (k : String) (m : HashMap String (Case Json))
      → Avoids k (HashMap.keys m)
      → Avoids k (partition m).running_keys × Avoids k (partition m).waiting_keys
  unfolding partition
  partition_absent k [] a = (tt, tt)
  partition_absent k ((j, c) ∷ m) a = ground (arith, partition_absent k m a.1)

  -- A case that is not active is in neither list of phase 1.
  partition_inactive :
      (k : String) (c : Case Json) (m : HashMap String (Case Json))
      → IsMap m
      → HashMap.get m k ≡ some c
      → is_active c ≡ false
      → Avoids k (partition m).running_keys × Avoids k (partition m).waiting_keys
  unfolding partition HashMap.get
  partition_inactive k c [] u h i = (tt, tt)
  partition_inactive k c ((j, d) ∷ m) u h i = elim (Bool-cases (j == k)) [
    | inl same ↦
        let names : j ≡ k = (string_eq.same_iff j k).0 same in
        let it : d ≡ c = ground arith in
        let rest = partition_absent k m (rw names at u.0) in ground arith
    | inr other ↦
        let rest = partition_inactive k c m u.1 (ground arith) i in
        ground (arith, string_eq.same_iff j k)
  ]

module _ {Json : Type 0} (k : String) where
  pub keep_alter :
      (f : Case Json → Case Json) (j : String) (m : HashMap String (Case Json))
      → j ≢ k
      → HashMap.get (HashMap.alter m j f) k ≡ HashMap.get m k
  keep_alter f j m ne = ground (arith, get-alter m j k f, string_eq.same_iff j k)

module _ (k : String) where
  abbrev AvoidsPolls : List (String × PollPredicate) → Type 0
  AvoidsPolls = All (λ q. q.0 ≢ k)

  push_new-Avoids :
      (keys : List String) (j : String) → Avoids k keys → j ≢ k → Avoids k (push_new keys j)
  push_new-Avoids keys j a ne =
      let both = All-append (λ i. i ≢ k) keys (j ∷ []) a (ne, tt) in
      elim (Bool-cases (contains keys j)) [ inl there ↦ ground arith | inr fresh ↦ ground arith ]

  ready_keys-Avoids :
      (ready woken : List String)
      → Avoids k ready
      → Avoids k woken
      → Avoids k (ready_keys ready woken)
  unfolding ready_keys
  ready_keys-Avoids ready [] a b = a
  ready_keys-Avoids ready (j ∷ woken) a b =
      ready_keys-Avoids (push_new ready j) woken (push_new-Avoids ready j a b.0) b.1

  select_polls-Avoids :
      (router : Bool) (j : String) (polls : List PollPredicate)
      → j ≢ k
      → AvoidsPolls (select_polls router j polls)
  select_polls-Avoids router j [] ne = tt
  select_polls-Avoids router j (q ∷ polls) ne =
      ground (arith, select_polls-Avoids router j polls ne)

  polls_of-Avoids :
      (router : Bool) (results : List (String × List PollPredicate))
      → All (λ r. r.0 ≢ k) results
      → AvoidsPolls (polls_of router results)
  unfolding polls_of
  polls_of-Avoids router [] a = tt
  polls_of-Avoids router ((j, polls) ∷ results) a =
      All-append (λ q. q.0 ≢ k) (select_polls router j polls) (polls_of router results)
        (select_polls-Avoids router j polls a.0) (polls_of-Avoids router results a.1)

module _ {Json Float C S : Type 0} (k : String) (v : Option (Case Json)) where
  -- the case of `k` is still `v`, and nothing is to be done for it
  abbrev Spares : Progress Json Float C S → Type 0
  Spares p = (HashMap.get p.dict k ≡ v) × Avoids k p.woken × All (λ r. r.0 ≢ k) p.polls

module _ {Json Float C S : Type 0} (registry : WorkflowRegistry Json (Workflow Json Float C S))
    (clock : TickClock) (observed : Bool) (k : String) (v : Option (Case Json)) where
  after_probe-Spares :
      (j : String) (r : Result WorkflowResult) (p : Progress Json Float C S)
      → j ≢ k
      → Spares k v p
      → Spares k v (after_probe clock j r p)
  after_probe-Spares j (ok continues) p ne h = (
    keep_alter k (mc_run (clock.now j)) j p.dict ne ∙ h.0,
    All-append (λ i. i ≢ k) p.woken (j ∷ []) h.1 (ne, tt),
    h.2,
  )
  after_probe-Spares j (ok (waits [])) p ne h = h
  after_probe-Spares j (ok (waits (q ∷ qs))) p ne h =
      (h.0, h.1, All-append (λ i. i.0 ≢ k) p.polls ((j, q ∷ qs) ∷ []) h.2 (ne, tt))
  after_probe-Spares j (ok (finishes t d)) p ne h =
      (keep_alter k (mc_finish (clock.now j) t d) j p.dict ne ∙ h.0, h.1, h.2)
  after_probe-Spares j (err e) p ne h = h

  after_execution-Spares :
      (j : String) (r : Result WorkflowResult) (p : Progress Json Float C S)
      → j ≢ k
      → Spares k v p
      → Spares k v (after_execution clock j r p)
  after_execution-Spares j (ok continues) p ne h = h
  after_execution-Spares j (ok (waits polls)) p ne h =
      (keep_alter k (mc_wait (clock.now j)) j p.dict ne ∙ h.0, h.1, h.2)
  after_execution-Spares j (ok (finishes t d)) p ne h =
      (keep_alter k (mc_finish (clock.now j) t d) j p.dict ne ∙ h.0, h.1, h.2)
  after_execution-Spares j (err e) p ne h = h

  probe_resolved-Spares :
      (found : Option (Case Json × Workflow Json Float C S)) (j : String)
      (p : Progress Json Float C S)
      → j ≢ k
      → Spares k v p
      → Spares k v (probe_resolved registry clock observed found j p)
  unfolding probe_resolved
  probe_resolved-Spares none j p ne h = h
  probe_resolved-Spares (some (c, wf)) j p ne h =
      let (r, shared) = run_workflow observed wf c p.shared in
      after_probe-Spares j r (record p { shared = emit_probe observed clock c j r shared }) ne h

  execute_resolved-Spares :
      (found : Option (Case Json × Workflow Json Float C S)) (j : String)
      (p : Progress Json Float C S)
      → j ≢ k
      → Spares k v p
      → Spares k v (execute_resolved registry clock observed found j p)
  unfolding execute_resolved
  execute_resolved-Spares none j p ne h = h
  execute_resolved-Spares (some (c, wf)) j p ne h =
      let (r, shared) = run_workflow observed wf c p.shared in
      after_execution-Spares j r (record p { shared = shared }) ne h

  probe_all-Spares :
      (keys : List String) (p : Progress Json Float C S)
      → Avoids k keys
      → Spares k v p
      → Spares k v (probe_all registry clock observed keys p)
  unfolding probe_all probe
  probe_all-Spares [] p a h = h
  probe_all-Spares (j ∷ keys) p a h =
      probe_all-Spares keys _ a.1 (probe_resolved-Spares (resolve registry p.dict j) j p a.0 h)

  execute_all-Spares :
      (keys : List String) (p : Progress Json Float C S)
      → Avoids k keys
      → Spares k v p
      → Spares k v (execute_all registry clock observed keys p)
  unfolding execute_all execute
  execute_all-Spares [] p a h = h
  execute_all-Spares (j ∷ keys) p a h =
      execute_all-Spares keys _ a.1 (execute_resolved-Spares (resolve registry p.dict j) j p a.0 h)

  run_tasks-Spares :
      (dict : HashMap String (Case Json)) (keys : List String) (p : Progress Json Float C S)
      → Avoids k keys
      → Spares k v p
      → Spares k v (run_tasks registry clock observed dict keys p)
  unfolding run_tasks
  run_tasks-Spares dict [] p a h = h
  run_tasks-Spares dict (j ∷ keys) p a h = run_tasks-Spares dict keys _ a.1 (
      rw (run_task-execute_resolved registry clock observed dict j p)
        (execute_resolved-Spares (resolve registry dict j) j p a.0 h))

module _ {Json Float C S : Type 0} (clock : TickClock) (k : String) (v : Option (Case Json)) where
  wake-Spares :
      (fetch : ResourceFetcher Json) (q : String × PollPredicate) (p : Progress Json Float C S)
      → q.0 ≢ k
      → Spares k v p
      → Spares k v (wake clock fetch q p)
  unfolding wake
  wake-Spares fetch (j, poll) p ne h =
      let moved = keep_alter k (mc_run (clock.now j)) j p.dict ne ∙ h.0 in
      let woken = push_new-Avoids k p.woken j h.1 ne in
      elim (is_empty (evaluate fetch (poll ∷ [])))
        as (λ b. Spares k v (
          if b
          then p
          else record (update_case (mc_run (clock.now j)) j p) { woken = push_new p.woken j })) [
            | true ↦ h
            | false ↦ (moved, woken, h.2)
          ]

  wake_each-Spares :
      (fetch : ResourceFetcher Json) (polls : List (String × PollPredicate))
      (p : Progress Json Float C S)
      → AvoidsPolls k polls
      → Spares k v p
      → Spares k v (wake_each clock fetch polls p)
  unfolding wake_each
  wake_each-Spares fetch [] p a h = h
  wake_each-Spares fetch (q ∷ polls) p a h =
      wake_each-Spares fetch polls (wake clock fetch q p) a.1 (wake-Spares fetch q p a.0 h)

  wake_all-Spares :
      (fetcher : Option (ResourceFetcher Json)) (p : Progress Json Float C S)
      → Spares k v p
      → Spares k v (wake_all clock fetcher p)
  unfolding wake_all
  wake_all-Spares none p h = h
  wake_all-Spares (some fetch) p h =
      wake_each-Spares fetch _ p
        (All-append (λ q. q.0 ≢ k) (polls_of false p.polls) (polls_of true p.polls)
          (polls_of-Avoids k false p.polls h.2) (polls_of-Avoids k true p.polls h.2))
        h

module _ {Json Float C S : Type 0} (registry : WorkflowRegistry Json (Workflow Json Float C S))
    (clock : TickClock) (k : String) where
  execute_ready-Spares :
      (observed : Bool) (mode : ExecutionMode) (schedule : List String → List String)
      → ((keys : List String) → Avoids k keys → Avoids k (schedule keys))
      → (v : Option (Case Json)) (ready : List String) (p : Progress Json Float C S)
      → Avoids k ready
      → Spares k v p
      → Spares k v (execute_ready registry clock observed mode schedule ready p)
  unfolding execute_ready
  execute_ready-Spares observed sequential schedule s v ready p a h =
      execute_all-Spares registry clock observed k v ready p a h
  execute_ready-Spares observed parallel schedule s v ready p a h =
      run_tasks-Spares registry clock observed k v p.dict (schedule ready) p (s ready a) h

  run_phases-keeps :
      (observed : Bool) (mode : ExecutionMode) (schedule : List String → List String)
      → ((keys : List String) → Avoids k keys → Avoids k (schedule keys))
      → (fetcher : Option (ResourceFetcher Json)) (dict : HashMap String (Case Json))
        (shared : Shared Json Float C S)
      → Avoids k (partition dict).running_keys
      → Avoids k (partition dict).waiting_keys
      → HashMap.get (run_phases registry clock observed mode schedule fetcher dict shared).dict k
        ≡ HashMap.get dict k
  unfolding run_phases wake_phase
  run_phases-keeps observed mode schedule s fetcher dict shared a b =
      let v = HashMap.get dict k in
      let woken = wake_all-Spares clock k v fetcher _ (
        probe_all-Spares registry clock observed k v (partition dict).waiting_keys
          (record { dict = dict; shared = shared; woken = []; polls = []; any = false }) b
          (refl, tt, tt)) in
      (execute_ready-Spares observed mode schedule s v _ _
        (ready_keys-Avoids k (partition dict).running_keys _ a woken.1) woken).0

  -- In a dictionary with one entry for a key, a tick leaves a case that is finished, or whose
  -- lifecycle state is paused or stopped, as it is, whatever the other cases do, where the
  -- order in which the tasks of the parallel mode run adds no key.
  pub tick_keeps_inactive :
      (schedule : List String → List String)
      → ((keys : List String) → Avoids k keys → Avoids k (schedule keys))
      → (fetcher : Option (ResourceFetcher Json)) (shutdown : Option Bool) (s : Scheduler)
        (env : SchedulerEnvironment Json) (shared : Shared Json Float C S) (c : Case Json)
      → IsMap env.current_case_dict
      → HashMap.get env.current_case_dict k ≡ some c
      → is_active c ≡ false
      → HashMap.get
          (tick registry clock schedule fetcher shutdown s env shared).env.current_case_dict
          k
        ≡ some c
  unfolding tick
  tick_keeps_inactive schedule ks fetcher (some true) s env shared c u h i = h
  tick_keeps_inactive schedule ks fetcher (some false) s env shared c u h i =
      let apart = partition_inactive k c env.current_case_dict u h i in
      let kept =
        run_phases-keeps s.observed env.execution_mode schedule ks fetcher env.current_case_dict
          shared apart.0 apart.1
        ∙ h in
      ground arith
  tick_keeps_inactive schedule ks fetcher none s env shared c u h i =
      let apart = partition_inactive k c env.current_case_dict u h i in
      let kept =
        run_phases-keeps s.observed env.execution_mode schedule ks fetcher env.current_case_dict
          shared apart.0 apart.1
        ∙ h in
      ground arith
