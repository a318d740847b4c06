-- ===== src/Engine/Filed.antt =====
-- crates/workflow_engine/src/engine.rs: what every tick keeps of the dictionary of cases.
pub mod Ticks
use tianshu_rs.Base.{
  ℕ, String, Bool, true, false, Option, none, some, List, [], ◌∷◌, Result, ok, err, ◌≡◌, ◌≢◌, refl,
  ◌∙◌, arith, ◌==◌, string_eq, if◌then◌else◌, All, All-append, Bool-cases, inl, inr, is_empty, sym,
}
use tianshu_rs.Base.HashMap
use tianshu_rs.Base.HashMap.{HashMap, keys-alter}
use tianshu_rs.Case.{Case, mc_run, mc_wait, mc_finish}
use tianshu_rs.Session.{Session}
use tianshu_rs.Workflow.{PollPredicate, WorkflowResult, continues, waits, finishes}
use tianshu_rs.Registry.{WorkflowRegistry}
use tianshu_rs.Poll.{ResourceFetcher}
use tianshu_rs.Engine.{
  ExecutionMode, sequential, parallel, SchedulerEnvironment, Scheduler, Shared, TickClock, Workflow,
  partition, evaluate, dict_of, new_environment, with_execution_mode,
}
use tianshu_rs.Engine.Phases.{
  Progress, emit_probe, update_case, run_workflow, after_probe, after_execution, resolve, probe,
  probe_all, execute, execute_all, probe_resolved, execute_resolved,
}
use tianshu_rs.Engine.Tick.{
  wake, wake_each, wake_all, run_task, run_tasks, execute_ready, wake_phase, run_phases, tick,
}
use tianshu_rs.Engine.Untouched.{Avoids, IsMap}
use tianshu_rs.Engine.Once.{AreDistinct}

module _ {Json : Type 0} where
  -- every case stands under its own key
  abbrev pub IsFiled : HashMap String (Case Json) → Type 0
  IsFiled = All (λ e. e.1.case_key ≡ e.0)

  -- the keys are `ks`, and every case stands under its own
  abbrev pub IsFiledAs : List String → HashMap String (Case Json) → Type 0
  IsFiledAs ks m = (HashMap.keys m ≡ ks) × IsFiled m

  pub keys-IsMap : (m : HashMap String (Case Json)) → AreDistinct (HashMap.keys m) → IsMap m
  keys-IsMap [] d = tt
  keys-IsMap ((k, c) ∷ m) d = (d.0, keys-IsMap m d.1)

  pub IsMap-keys : (m : HashMap String (Case Json)) → IsMap m → AreDistinct (HashMap.keys m)
  IsMap-keys [] d = tt
  IsMap-keys ((k, c) ∷ m) d = (d.0, IsMap-keys m d.1)

  insert-Avoids :
      (j k : String) (c : Case Json) (m : HashMap String (Case Json))
      → k ≢ j
      → Avoids j (HashMap.keys m)
      → Avoids j (HashMap.keys (HashMap.insert m k c))
  unfolding HashMap.insert
  insert-Avoids j k c [] ne a = (ne, tt)
  insert-Avoids j k c ((i, d) ∷ m) ne a = ground (arith, insert-Avoids j k c m ne a.1)

  insert-IsMap :
      (k : String) (c : Case Json) (m : HashMap String (Case Json))
      → IsMap m
      → IsMap (HashMap.insert m k c)
  unfolding HashMap.insert
  insert-IsMap k c [] u = (tt, tt)
  insert-IsMap k c ((j, d) ∷ m) u = elim (Bool-cases (j == k)) [
    | inl same ↦ let names : j ≡ k = (string_eq.same_iff j k).0 same in rw same (rw (← names) u)
    | inr other ↦
        let apart : k ≢ j = λ e. absurd (ground (arith, e, other, string_eq.same_iff j k)) in
        rw other (insert-Avoids j k c m apart u.0, insert-IsMap k c m u.1)
  ]

  insert-IsFiled :
      (c : Case Json) (m : HashMap String (Case Json))
      → IsFiled m
      → IsFiled (HashMap.insert m c.case_key c)
  unfolding HashMap.insert
  insert-IsFiled c [] h = (refl, tt)
  insert-IsFiled c ((j, d) ∷ m) h = ground (arith, insert-IsFiled c m h.1)

  pub dict_of-IsMap :
      (m : HashMap String (Case Json)) (cases : List (Case Json))
      → IsMap m × IsFiled m
      → IsMap (dict_of m cases) × IsFiled (dict_of m cases)
  unfolding dict_of
  dict_of-IsMap m [] h = h
  dict_of-IsMap m (c ∷ cases) h =
      dict_of-IsMap (HashMap.insert m c.case_key c) cases
        (insert-IsMap c.case_key c m h.0, insert-IsFiled c m h.1)

  pub alter-IsFiled :
      (f : Case Json → Case Json) (k : String) (m : HashMap String (Case Json))
      → ((c : Case Json) → (f c).case_key ≡ c.case_key)
      → IsFiled m
      → IsFiled (HashMap.alter m k f)
  unfolding HashMap.alter
  alter-IsFiled f k [] own h = tt
  alter-IsFiled f k ((j, c) ∷ m) own h =
      let kept : (f c).case_key ≡ j = own c ∙ h.0 in ground (arith, alter-IsFiled f k m own h.1)
