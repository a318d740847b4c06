-- ===== src/Context/Children.antt =====
-- crates/workflow_engine/src/context.rs: spawning child workflows and waiting for them.
pub mod Await
pub mod Spawned
use tianshu_rs.Base.{
  ℕ, suc, String, Option, none, some, List, [], ◌∷◌, ◌++◌, Result, ok, err, anyhow, format, decimal,
  ltb, if◌then◌else◌, ◌+◌,
}
use tianshu_rs.Base.Exec.{Exec, ◌>>=◌, ◌>>◌, pure, lift, modify}
use tianshu_rs.Case
use tianshu_rs.Case.{Case, ExecutionState}
use tianshu_rs.Spawn.{
  SpawnConfig, ChildHandle, ChildStatus, ChildrenResult, all_done, pending, failed,
}
use tianshu_rs.Store.{CaseStore}
use tianshu_rs.Context.{WorkflowContext}

abbrev or_default : Option String → String
or_default none = ""
or_default (some s) = s

abbrev or_else : Option String → String → String
or_else none s = s
or_else (some key) s = key

-- `stamp` is read for the key, `now` for the new case
unfoldable pub child_key : {Json : Type 0} → (stamp : ℕ) → String → SpawnConfig Json → String
child_key stamp parent config =
    or_else config.case_key
      (format (parent ∷ "_" ∷ decimal stamp ∷ "_child_" ∷ config.workflow_code ∷ []))

module _ {Json : Type 0} where
  abbrev status_by_state : ExecutionState → Case Json → ChildStatus Json
  status_by_state ExecutionState.running child = ChildStatus.running
  status_by_state ExecutionState.waiting child = ChildStatus.waiting
  status_by_state ExecutionState.finished child =
      ChildStatus.finished (or_default child.finished_type) (or_default child.finished_description)
        child.resource_data

  abbrev status_of : String → Result (Option (Case Json)) → Result (ChildStatus Json)
  status_of key (err e) = err e
  status_of key (ok none) = ok (failed (format ("child case '" ∷ key ∷ "' not found" ∷ [])))
  status_of key (ok (some child)) = ok (status_by_state child.execution_state child)

  abbrev pending_of : ChildStatus Json → ℕ → ℕ
  pending_of ChildStatus.running n = n + 1
  pending_of ChildStatus.waiting n = n + 1
  pending_of _ n = n

module _ {Json Float C S : Type 0} where
  unfoldable pub child_case :
      (stamp now : ℕ) → SpawnConfig Json → WorkflowContext Json Float C S → Case Json
  unfolding child_key
  child_case stamp now config c =
      record (Case.new now (child_key stamp c.case.case_key config) c.case.session_id
        config.workflow_code) {
          parent_key = some c.case.case_key;
          resource_data = config.resource_data;
        }

module _ {Json Float C S : Type 0} (cases : CaseStore Json C) where
  abbrev upsert_case : Case Json → Exec (WorkflowContext Json Float C S) (Unit {0})
  upsert_case case c =
      let (r, store) = cases.upsert case c.case_store in (r, record c { case_store = store })

  abbrev push_child : String → WorkflowContext Json Float C S → WorkflowContext Json Float C S
  push_child key c = record c {
    case = record c.case { child_keys = c.case.child_keys ++ key ∷ [] };
  }

  unfoldable pub spawn_child :
      (stamp now : ℕ) → SpawnConfig Json → Exec (WorkflowContext Json Float C S) ChildHandle
  unfolding child_case
  spawn_child stamp now config c =
      let child = child_case stamp now config c in
      (do
        upsert_case child
        modify (push_child child.case_key)
        (λ d. upsert_case d.case d)
        pure (record { case_key = child.case_key; workflow_code = config.workflow_code }))
        c

  -- each spawn reads the clock twice
  unfoldable pub spawn_children :
      List ((stamp : ℕ) × (now : ℕ) × SpawnConfig Json)
      → Exec (WorkflowContext Json Float C S) (List ChildHandle)
  unfolding spawn_child
  spawn_children [] = pure []
  spawn_children ((stamp, now, config) ∷ rest) = do
    handle ← spawn_child stamp now config
    handles ← spawn_children rest
    pure (handle ∷ handles)

  unfoldable pub child_status :
      ChildHandle → WorkflowContext Json Float C S → Result (ChildStatus Json)
  child_status handle c = status_of handle.case_key (cases.get_by_key handle.case_key c.case_store)

  -- the loop, with the statuses and the count of pending children so far
  unfoldable pub check_children :
      List ChildHandle
      → List (ChildHandle × ChildStatus Json)
      → ℕ
      → WorkflowContext Json Float C S
      → Result (ChildrenResult Json)
  check_children [] statuses count c = ok (if ltb 0 count then pending count else all_done statuses)
  check_children (handle ∷ rest) statuses count c = elim (child_status handle c) [
    | err e ↦ err e
    | ok status ↦
        check_children rest (statuses ++ (handle, status) ∷ []) (pending_of status count) c
  ]

  unfoldable pub await_children :
      List ChildHandle → WorkflowContext Json Float C S → Result (ChildrenResult Json)
  unfolding check_children
  await_children handles c = check_children handles [] 0 c
