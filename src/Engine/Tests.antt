-- ===== src/Engine/Tests.antt =====
-- A tick at a concrete input: a paused case beside a running one, in parallel mode.
use tianshu_rs.Base.{
  ◌||◌, ℕ, String, false, true, none, some, List, [], ◌∷◌, ok, ◌≡◌, ◌≢◌, refl, ◌==◌, string_eq,
  arith,
}
use tianshu_rs.Base.HashMap
use tianshu_rs.Base.HashMap.{HashMap}
use tianshu_rs.Case
use tianshu_rs.Case.{Case, is_active, is_paused, is_stopped, mc_wait, mc_finish}
use tianshu_rs.Session
use tianshu_rs.Workflow.{finishes}
use tianshu_rs.Registry.{WorkflowRegistry}
use tianshu_rs.Engine
use tianshu_rs.Engine.{
  SchedulerEnvironment, Scheduler, Shared, TickClock, Workflow, sequential, with_execution_mode,
  parallel, TickResult, executed, idle, partition, contains, new_environment,
}
use tianshu_rs.Engine.Tick.{tick, wake_phase}
use tianshu_rs.Engine.Modes.{tick_modes_agree}
use tianshu_rs.Engine.Once.{is_found_running}
use tianshu_rs.Engine.Executed.{IsExecutedOnce, tick_executes_once}
use tianshu_rs.Engine.Phases.{resolve}
use tianshu_rs.Engine.Untouched.{IsMap, tick_keeps_inactive}
use tianshu_rs.Engine.Filed.{IsFiled}
use tianshu_rs.Engine.Filed.Ticks.{begins, ticks, Runs-IsFiled}

abbrev ends : Workflow ℕ ℕ (List ℕ) (List ℕ)
ends c = (ok (finishes "ok" "done"), c)

abbrev registry : WorkflowRegistry ℕ (Workflow ℕ ℕ (List ℕ) (List ℕ))
registry = ("review", λ c. ends) ∷ []

abbrev clock : TickClock
clock = record { now = λ k. 50; probe_ms = λ k. 1 }

abbrev paused : Case ℕ
paused = record (Case.new 3 "a" "s" "review") { lifecycle_state = "pause" }

abbrev env_with : Case ℕ → SchedulerEnvironment ℕ
env_with c = record {
  session = Session.new 1 "s";
  current_case_dict = ("a", paused) ∷ ("b", c) ∷ [];
  execution_mode = parallel;
}

abbrev env : SchedulerEnvironment ℕ
env = env_with (Case.new 4 "b" "s" "review")

abbrev shared : Shared ℕ ℕ (List ℕ) (List ℕ)
shared = record { case_store = []; state_store = []; events = [] }

differ : (a b : String) → (a == b) ≡ false → a ≢ b
differ a b d e = ground (arith, string_eq.same_iff a b)

tick_keeps_inactive_example :
    HashMap.get
      (tick registry clock (λ ks. ks) none none Engine.new env shared).env.current_case_dict
      "a"
    ≡ some paused
unfolding is_active is_paused is_stopped HashMap.get Case.new
tick_keeps_inactive_example =
    tick_keeps_inactive registry clock "a" (λ ks. ks) (λ ks a. a) none none Engine.new env shared
      paused ((differ "b" "a" refl, tt), (tt, tt)) refl refl

goes_on : none ≢ some true
goes_on e = absurd (ground (arith, e))

tick_executes_once_example :
    let t = tick registry clock (λ ks. ks) none none Engine.new env shared in
    let p = wake_phase registry clock false none env.current_case_dict shared in
    IsExecutedOnce clock false "b"
      (is_found_running (HashMap.get env.current_case_dict "b")
        || contains t.scheduler.woken_keys "b")
      (resolve registry p.dict "b")
      (HashMap.get p.dict "b")
      (HashMap.get t.env.current_case_dict "b")
unfolding Engine.new
tick_executes_once_example =
    tick_executes_once registry clock "b" (λ ks. ks) none none Engine.new env shared goes_on
      (λ keys d. (d, refl)) ((differ "b" "a" refl, tt), (tt, tt))

abbrev asleep : Case ℕ
asleep = mc_wait 6 (Case.new 3 "a" "s" "review")

tick_modes_agree_example :
    let a =
      tick registry clock
        (λ ks. ks)
        none
        none
        Engine.new
        (with_execution_mode env parallel)
        shared in
    let b =
      tick registry clock
        (λ ks. ks)
        none
        none
        Engine.new
        (with_execution_mode env sequential)
        shared in
    (a.result ≡ b.result)
    × (a.scheduler ≡ b.scheduler)
    × (a.env.current_case_dict ≡ b.env.current_case_dict)
    × (a.shared ≡ b.shared)
tick_modes_agree_example =
    tick_modes_agree registry clock none none Engine.new env shared
      ((differ "b" "a" refl, tt), (tt, tt))

Runs-IsFiled_example :
    let after =
      (tick registry clock
        (λ ks. ks)
        none
        none
        Engine.new
        (new_environment (Session.new 1 "s") (asleep ∷ []))
        shared).env in
    (HashMap.keys after.current_case_dict
      ≡ HashMap.keys (new_environment (Session.new 1 "s") (asleep ∷ [])).current_case_dict)
    × IsFiled after.current_case_dict
    × IsMap after.current_case_dict
    × (after.session ≡ Session.new 1 "s")
Runs-IsFiled_example =
    Runs-IsFiled registry (Session.new 1 "s") (asleep ∷ [])
      (ticks clock (λ ks. ks) none none Engine.new shared begins)
