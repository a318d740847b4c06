-- ===== src/Approval.antt =====
-- examples/approval_workflow: the workflow, and the event bus of its orchestrator (src/main.rs).
-- `field` stands for `d[name].as_str()` of `serde_json`; logging is left out.
pub mod Options
pub mod Demo
pub mod Decision
pub mod Setup
mod Tests
use tianshu_rs.Base.{
  String, Bool, Option, none, some, List, [], ◌∷◌, Result, ok, err, ◌==◌, string_eq, if◌then◌else◌,
  ◌≡◌, ◌≢◌, refl, arith,
}
use tianshu_rs.Base.HashMap
use tianshu_rs.Base.HashMap.{HashMap, get-insert}
use tianshu_rs.Base.Exec.{Exec, ◌>>=◌, ◌>>◌, pure}
use tianshu_rs.Case.{Case}
use tianshu_rs.Store.{CaseStore, StateStore}
use tianshu_rs.Workflow.{PollPredicate, WorkflowResult, waits, finishes}
use tianshu_rs.Poll.{PollMatch, ResourceFetcher, evaluate}
use tianshu_rs.Context.{Serde, Codec, WorkflowContext}
use tianshu_rs.Context.Step.{Timing, step}
use tianshu_rs.Context.Finish.{FinishTiming, finish}

abbrev pub or_text : Option String → String → String
or_text none other = other
or_text (some s) other = s

abbrev pub review_poll : String → PollPredicate
review_poll case_key = record {
  resource_type = "review_decision";
  resource_id = case_key;
  step_name = "review_decision_received";
  intent_desc = none;
}

-- the events of the bus by case key
abbrev pub EventBus : Type 0 → Type 0
EventBus Json = HashMap String Json

module _ {Json : Type 0} where
  unfoldable pub publish : EventBus Json → String → Json → EventBus Json
  publish bus case_key payload = HashMap.insert bus case_key payload

  unfoldable pub fetch : EventBus Json → ResourceFetcher Json
  fetch bus resource_type resource_id =
      if resource_type == "review_decision" then ok (HashMap.get bus resource_id) else ok none

abbrev pub field_of :
    {Json : Type 0} (field : Json → String → Option String) → Option Json → String → Option String
field_of field none name = none
field_of field (some d) name = field d name

module _ {Json Float C S : Type 0} (serde : Serde Json) (codec : Codec Json String)
    (field : Json → String → Option String) (cases : CaseStore Json C) (states : StateStore S) where
  abbrev pub decide :
      FinishTiming → Option String → Exec (WorkflowContext Json Float C S) WorkflowResult
  decide ft none c = (ok (waits (review_poll c.case.case_key ∷ [])), c)
  decide ft (some decision) c =
      let reason = or_text (field_of field c.case.resource_data "reason") decision in
      (finish cases states ft decision reason >> pure (finishes decision reason)) c

  unfoldable pub run : Timing → FinishTiming → Exec (WorkflowContext Json Float C S) WorkflowResult
  run t ft c =
      let title = or_text (field_of field c.case.resource_data "title") "(untitled)" in
      (do
        submitted ← step serde codec states t "submitted" (λ c'. (ok title, c'))
        λ c'. decide ft (field_of field c'.case.resource_data "decision") c')
        c

-- The poll of a waiting review is answered by the bus with the payload published last for its case,
-- and with nothing that is published for another case.
pub evaluate-publish :
    {Json : Type 0} (bus : EventBus Json) (published key : String) (payload : Json)
    → evaluate (fetch (publish bus published payload)) (review_poll key ∷ []) ≡ (
        if published == key
        then record { step_name = "review_decision_received"; payload = payload } ∷ []
        else evaluate (fetch bus) (review_poll key ∷ []))
unfolding publish fetch evaluate
evaluate-publish bus published key payload =
    ground (arith, get-insert bus published key payload, string_eq.same_iff published key)
