-- ===== src/Engine/Idle.antt =====
-- crates/workflow_engine/src/engine.rs: what a tick returns where only a probe ran a workflow.
use tianshu_rs.Base.{String, true, none, some, List, [], ◌∷◌, ok, ◌≡◌, arith, string_eq}
use tianshu_rs.Base.HashMap
use tianshu_rs.Base.HashMap.{HashMap}
use tianshu_rs.Case.{Case, is_active, mc_finish, waiting}
use tianshu_rs.Workflow.{finishes}
use tianshu_rs.Registry
use tianshu_rs.Registry.{WorkflowRegistry}
use tianshu_rs.Session.{Session}
use tianshu_rs.Engine.{
  sequential, SchedulerEnvironment, Scheduler, Shared, TickClock, Workflow, idle, partition,
}
use tianshu_rs.Engine.Phases.{run_workflow, resolve, probe, probe_resolved, probe_all, execute_all}
use tianshu_rs.Engine.Tick.{tick, run_phases, wake_phase, wake_all, ready_keys, execute_ready}

abbrev pub alone : {Json : Type 0} → Session Json → String → Case Json → SchedulerEnvironment Json
alone session k c = record {
  session = session;
  current_case_dict = (k, c) ∷ [];
  execution_mode = sequential;
}

-- Where the only case waits, and its workflow finishes when it is probed, the tick returns `Idle`,
-- as if no workflow had run, and the case is finished.
pub idle_after_finish :
    {Json Float C S : Type 0} (registry : WorkflowRegistry Json (Workflow Json Float C S))
    (clock : TickClock) (schedule : List String → List String) (s : Scheduler)
    (session : Session Json) (shared : Shared Json Float C S) (k : String) (c : Case Json)
    (wf : Workflow Json Float C S) (type description : String)
    → is_active c ≡ true
    → c.execution_state ≡ waiting
    → Registry.get registry c.workflow_code c ≡ some wf
    → (run_workflow s.observed wf c shared).0 ≡ ok (finishes type description)
    → let t = tick registry clock schedule none none s (alone session k c) shared in
      (t.result ≡ idle)
      × (HashMap.get t.env.current_case_dict k ≡ some (mc_finish (clock.now k) type description c))
unfolding tick run_phases wake_phase wake_all ready_keys execute_ready execute_all probe_all probe
    probe_resolved resolve partition HashMap.get HashMap.alter
idle_after_finish registry clock schedule s session shared k c wf type description active waits
      found ran =
    ground (arith, string_eq.same_iff k k)
