-- ===== src/Workflow.antt =====
-- crates/workflow_engine/src/workflow.rs: what a workflow returns from one tick.
use tianshu_rs.Base.{ℕ, String, Bool, true, false, List, Option, none}

pub record PollPredicate : Type 0 where
  pub resource_type : String
  pub resource_id : String
  pub step_name : String
  pub intent_desc : Option String

pub data WorkflowResult : Type 0 where
  continues : WorkflowResult
  waits : List PollPredicate → WorkflowResult
  finishes : String → String → WorkflowResult

pub record RouteListener : Type 0 where
  pub intent_desc : String
  pub msg_filter : String
  pub needs_llm : Bool

unfoldable pub default_listener : RouteListener
default_listener = record {
  intent_desc = "";
  msg_filter = "creator_last_message";
  needs_llm = true;
}

pub record TimeoutConfig : Type 0 where
  pub interval_seconds : ℕ
  pub max_strikes : ℕ

unfoldable pub default_timeout : TimeoutConfig
default_timeout = record { interval_seconds = 43200; max_strikes = 3 }

-- The defaults of the trait `BaseWorkflow`: no listener, not listening, and nothing done on a match.
unfoldable pub route_listener : Option RouteListener
route_listener = none

unfoldable pub is_listening {ℓ} : {Context : Type ℓ} → Context → Bool
is_listening ctx = false

unfoldable pub on_route_matched {ℓ κ} :
    {Context : Type ℓ} {Json : Type κ} → Context → Option Json → Context
on_route_matched ctx payload = ctx
