-- ===== src/Case.antt =====
-- crates/workflow_engine/src/case.rs: a workflow case and its states. A value of `serde_json` is
-- of the type `Json`, a parameter. An instant is a number of milliseconds, and an operation that
-- reads the clock takes the reading as its argument `now`.
pub mod Lifecycle
mod Tests
use tianshu_rs.Base.{
  ℕ, String, Bool, true, false, not, ◌&&◌, Option, none, some, List, [], ◌∷◌, ◌≡◌, ◌↔◌, refl, arith,
  Eq, ◌==◌, string_eq, if◌then◌else◌, format, decimal,
}

pub data ExecutionState : Type 0 where
  running waiting finished : ExecutionState

abbrev pub state_beq : ExecutionState → ExecutionState → Bool
state_beq running running = true
state_beq waiting waiting = true
state_beq finished finished = true
state_beq _ _ = false

pub state_beq_iff : (a b : ExecutionState) → (state_beq a b ≡ true) ↔ (a ≡ b)
state_beq_iff running b = ground arith
state_beq_iff waiting b = ground arith
state_beq_iff finished b = ground arith

instance abbrev pub state_eq : Eq ExecutionState
state_eq = record { same = state_beq; same_iff = state_beq_iff }

-- the `Display` implementation
unfoldable pub to_string : ExecutionState → String
to_string running = "running"
to_string waiting = "waiting"
to_string finished = "finished"

unfoldable pub from_str_lowercase : String → Option ExecutionState
from_str_lowercase s =
    if s == "running"
    then some running
    else if s == "waiting"
    then some waiting
    else if s == "finished"
    then some finished
    else none

pub record Case (Json : Type 0) : Type 0 where
  pub case_key : String
  pub session_id : String
  pub workflow_code : String
  pub execution_state : ExecutionState
  pub finished_type : Option String
  pub finished_description : Option String
  pub parent_key : Option String
  pub child_keys : List String
  pub lifecycle_state : String
  pub processing_report : List Json
  pub resource_data : Option Json
  pub private_vars : Option Json
  pub created_at : ℕ
  pub updated_at : ℕ

module _ {Json : Type 0} where
  unfoldable pub new : (now : ℕ) → String → String → String → Case Json
  new now key session code = record {
    case_key = key;
    session_id = session;
    workflow_code = code;
    execution_state = running;
    finished_type = none;
    finished_description = none;
    parent_key = none;
    child_keys = [];
    lifecycle_state = "normal";
    processing_report = [];
    resource_data = none;
    private_vars = none;
    created_at = now;
    updated_at = now;
  }

  unfoldable pub mc_run : (now : ℕ) → Case Json → Case Json
  mc_run now c = record c { execution_state = running; updated_at = now }

  unfoldable pub mc_wait : (now : ℕ) → Case Json → Case Json
  mc_wait now c = record c { execution_state = waiting; updated_at = now }

  unfoldable pub mc_finish : (now : ℕ) → String → String → Case Json → Case Json
  mc_finish now type description c = record c {
    execution_state = finished;
    finished_type = some type;
    finished_description = some description;
    updated_at = now;
  }

  unfoldable pub is_paused : Case Json → Bool
  is_paused c = c.lifecycle_state == "pause"

  unfoldable pub is_stopped : Case Json → Bool
  is_stopped c = c.lifecycle_state == "stop"

  unfoldable pub is_active : Case Json → Bool
  unfolding is_paused is_stopped
  is_active c = not (is_paused c) && not (is_stopped c) && not (c.execution_state == finished)

  -- `json_case_type t` is `json!({"case_type": t})`; the clock is read twice, at `stamp` and `now`
  unfoldable pub make_case :
      (json_case_type : String → Json) (stamp now : ℕ) (session_id workflow_code : String)
      (case_type description : String) (parent_key : Option String)
      → Case Json
  make_case json_case_type stamp now session_id workflow_code case_type description parent_key =
      record {
        case_key = format (session_id ∷ "_" ∷ decimal stamp ∷ "_" ∷ workflow_code ∷ []);
        session_id = session_id;
        workflow_code = workflow_code;
        execution_state = running;
        finished_type = none;
        finished_description = some description;
        parent_key = parent_key;
        child_keys = [];
        lifecycle_state = "normal";
        processing_report = [];
        resource_data = none;
        private_vars = some (json_case_type case_type);
        created_at = now;
        updated_at = now;
      }
