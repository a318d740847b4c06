-- ===== src/Context/Finish.antt =====
-- crates/workflow_engine/src/context.rs: `finish`.
pub mod Laws
use tianshu_rs.Base.{ℕ, String, some, []}
use tianshu_rs.Base.Exec.{Exec, ◌>>◌, modify}
use tianshu_rs.Case.{finished}
use tianshu_rs.Observe.{WorkflowRecord, on_workflow_complete, flush}
use tianshu_rs.Store.{CaseStore, StateStore}
use tianshu_rs.Context.{WorkflowContext, emit}

-- the clock readings of `finish`
pub record FinishTiming : Type 0 where
  pub updated_at : ℕ
  pub finished_at : ℕ
  pub total_duration_ms : ℕ

module _ {Json Float C S : Type 0} (cases : CaseStore Json C) (states : StateStore S) where
  abbrev mark_finished :
      ℕ → String → String → WorkflowContext Json Float C S → WorkflowContext Json Float C S
  mark_finished now type description c = record c {
    case = record c.case {
      execution_state = finished;
      finished_type = some type;
      finished_description = some description;
      updated_at = now;
    };
  }

  abbrev store_case : Exec (WorkflowContext Json Float C S) (Unit {0})
  store_case c =
      let (r, store) = cases.upsert c.case c.case_store in (r, record c { case_store = store })

  -- an error of the clean-up is logged and not returned
  abbrev clean_up : WorkflowContext Json Float C S → WorkflowContext Json Float C S
  clean_up c =
      let (r, store) = states.delete_by_case c.case.case_key c.state_store in
      record c { state_store = store }

  abbrev pub workflow_record : FinishTiming → WorkflowContext Json Float C S → WorkflowRecord Json
  workflow_record t c = record {
    case_key = c.case.case_key;
    session_id = c.case.session_id;
    workflow_code = c.case.workflow_code;
    input_resource_data = c.initial_resource_data;
    output_resource_data = c.case.resource_data;
    finished_type = c.case.finished_type;
    finished_description = c.case.finished_description;
    steps = c.step_records;
    total_duration_ms = t.total_duration_ms;
    started_at = c.case.created_at;
    finished_at = t.finished_at;
  }

  abbrev announce : FinishTiming → WorkflowContext Json Float C S → WorkflowContext Json Float C S
  announce t c = emit flush (emit (on_workflow_complete (workflow_record t c)) c)

  abbrev forget : WorkflowContext Json Float C S → WorkflowContext Json Float C S
  forget c = record c { checkpoint_cache = []; step_records = [] }

  unfoldable pub finish :
      FinishTiming → String → String → Exec (WorkflowContext Json Float C S) (Unit {0})
  finish t type description = do
    modify (mark_finished t.updated_at type description)
    store_case
    modify clean_up
    modify (announce t)
    modify forget
