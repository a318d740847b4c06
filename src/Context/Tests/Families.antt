-- ===== src/Context/Tests/Families.antt =====
-- Children at concrete inputs.
use tianshu_rs.Base.{
  String, Bool, true, none, some, [], ◌∷◌, Result, ok, ◌≡◌, refl, ◌==◌, string_eq, if◌then◌else◌,
}
use tianshu_rs.Base.HashMap
use tianshu_rs.Case
use tianshu_rs.Case.{Case, ExecutionState}
use tianshu_rs.Spawn.{SpawnConfig, ChildHandle, ChildStatus, pending}
use tianshu_rs.Store.Memory
use tianshu_rs.Store.Memory.{in_memory_case_store}
use tianshu_rs.Store.Replaced.{in_memory-IsCaseStore}
use tianshu_rs.Context.{new}
use tianshu_rs.Context.Children.{child_key, child_case, spawn_child, child_status, await_children}
use tianshu_rs.Context.Children.Await.{Statuses, nil, cons, await_children_lem}
use tianshu_rs.Context.Children.Spawned.{spawn_child_stores}
use tianshu_rs.Context.Tests.{differ, Ctx, fresh, case, no_state}

abbrev named : SpawnConfig Bool
named = record { workflow_code = "review"; resource_data = some true; case_key = some "child_1" }

abbrev parent : Case Bool
parent = record case { child_keys = "child_1" ∷ [] }

abbrev child : Case Bool
child = child_case 3 4 named fresh

abbrev spawned : Result ChildHandle × Ctx
spawned = spawn_child in_memory_case_store 3 4 named fresh

spawn_child_stores_example :
    (spawned.0 ≡ ok (record { case_key = "child_1"; workflow_code = "review" }))
    × (spawned.1.case ≡ parent)
    × (child.execution_state ≡ ExecutionState.running)
    × (child.parent_key ≡ some "case_1")
    × (child.session_id ≡ "session_1")
    × ((k : String)
        → Memory.get_by_key k spawned.1.case_store ≡ (
            if "case_1" == k
            then ok (some parent)
            else (if "child_1" == k then ok (some child) else Memory.get_by_key k [])))
unfolding child_key new Case.new Memory.upsert Memory.get_by_key HashMap.get child_case
spawn_child_stores_example =
    spawn_child_stores in_memory_case_store in_memory-IsCaseStore 3 4 named fresh none
      (HashMap.insert [] "child_1" child)
      (HashMap.insert (HashMap.insert [] "child_1" child) "case_1" parent)
      (differ "child_1" "case_1" refl) refl refl tt refl refl

abbrev two_children : Ctx
two_children =
    new case
      (("a", Case.new 1 "a" "session_1" "review")
        ∷ ("b", Case.mc_finish 2 "ok" "fine" (Case.new 1 "b" "session_1" "review"))
        ∷ [])
      no_state

abbrev handle : String → ChildHandle
handle key = record { case_key = key; workflow_code = "review" }

statuses :
    Statuses in_memory_case_store two_children
      (handle "a" ∷ handle "b" ∷ [])
      ((handle "a", ChildStatus.running) ∷ (handle "b", ChildStatus.finished "ok" "fine" none) ∷ [])
unfolding child_status Memory.get_by_key HashMap.get new Case.new Case.mc_finish
statuses = cons refl (cons refl nil)

await_children_lem_example :
    await_children in_memory_case_store (handle "a" ∷ handle "b" ∷ []) two_children ≡ ok (pending 1)
await_children_lem_example = await_children_lem in_memory_case_store two_children statuses
