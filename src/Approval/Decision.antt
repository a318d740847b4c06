-- ===== src/Approval/Decision.antt =====
-- examples/approval_workflow/src/workflows/approval.rs: the workflow from its submission to the
-- decision, over a restart between them.
use tianshu_rs.Base.{
  String, false, Option, none, some, [], ◌∷◌, ok, ◌≡◌, refl, ap, ◌∙◌, arith, string_eq,
}
use tianshu_rs.Base.Exec.{Exec}
use tianshu_rs.Case.{mc_finish}
use tianshu_rs.Store.{CaseStore, StateStore, IsStateStore}
use tianshu_rs.Workflow.{waits, finishes}
use tianshu_rs.Context.{Serde, IsSerde, Codec, IsCodec, WorkflowContext, checkpoint_step_key}
use tianshu_rs.Context.Checkpoint.{get_checkpoint}
use tianshu_rs.Context.Step.{Timing, step}
use tianshu_rs.Context.Step.Replay.{step_executes, execute_saves, step_once}
use tianshu_rs.Context.Finish.{FinishTiming, finish}
use tianshu_rs.Context.Finish.Laws.{finish_lem, finish_cleans_up}
use tianshu_rs.Approval.{or_text, review_poll, field_of, decide, run}

module _ {Json Float C S : Type 0} (serde : Serde Json) (codec : Codec Json String)
    (field : Json → String → Option String) (cases : CaseStore Json C) (states : StateStore S) where
  abbrev title_of : WorkflowContext Json Float C S → String
  title_of c = or_text (field_of field c.case.resource_data "title") "(untitled)"

  abbrev submit : String → Exec (WorkflowContext Json Float C S) String
  submit title c = (ok title, c)

  -- the rest of a run, after the submission
  run_decides :
      (t : Timing) (ft : FinishTiming) (v : String) (found : Option String)
      (c : WorkflowContext Json Float C S)
      → (step serde codec states t "submitted" (submit (title_of c)) c).0 ≡ ok v
      → (step serde codec states t "submitted" (submit (title_of c)) c).1.case ≡ c.case
      → field_of field c.case.resource_data "decision" ≡ found
      → run serde codec field cases states t ft c
        ≡ decide serde codec field cases states ft found
            (step serde codec states t "submitted" (submit (title_of c)) c).1
  unfolding run
  run_decides t ft v found c submitted same_case decided = rw (submitted, same_case, decided) refl

  -- a run with a decision, where the case store takes the finished case
  decide_finishes :
      (ft : FinishTiming) (decision reason : String) (cs : C) (c : WorkflowContext Json Float C S)
      → or_text (field_of field c.case.resource_data "reason") decision ≡ reason
      → cases.upsert (mc_finish ft.updated_at decision reason c.case) c.case_store ≡ (ok tt, cs)
      → decide serde codec field cases states ft (some decision) c
        ≡ (ok (finishes decision reason), (finish cases states ft decision reason c).1)
  decide_finishes ft decision reason cs c reasoned stored =
      rw (reasoned, (finish_lem cases states ft decision reason c cs stored).0) refl

  first_submission :
      (t : Timing) (text : String) (j : Json) (s : S) (c : WorkflowContext Json Float C S)
      → get_checkpoint serde states "submitted" c ≡ (ok none, c)
      → codec.to_value (title_of c) ≡ ok j
      → serde.to_string j ≡ ok text
      → states.save t.saved_at c.case.case_key (checkpoint_step_key "submitted") text c.state_store
        ≡ (ok tt, s)
      → (step serde codec states t "submitted" (submit (title_of c)) c).1.case ≡ c.case
  first_submission t text j s c not_saved value prints saved =
      rw
        (step_executes serde codec states t "submitted" (submit (title_of c)) c c not_saved
          ∙ execute_saves serde codec states t "submitted" text c.case.resource_data (title_of c) j
              s (submit (title_of c)) c c refl value prints saved)
        (ground arith)

module _ {Json Float C S : Type 0} (serde : Serde Json) (codec : Codec Json String)
    (field : Json → String → Option String) (cases : CaseStore Json C) (states : StateStore S)
    (laws : IsSerde serde) (round_trip : IsCodec codec) (store : IsStateStore states) where
  -- A new review without a decision saves its submission and waits for the decision on its own key.
  -- After a restart, in a new context for the same case whose data has a decision, over the state
  -- that the first run left, the workflow finishes with the decision and its reason: the case is
  -- stored as finished, and no entry of it is left in the state store. Conditions: the title prints,
  -- is not null in JSON and is saved, the case store takes the finished case, and the state store,
  -- which meets the laws, deletes the entries of the case.
  pub run_waits_and_finishes :
      (t t' : Timing) (ft ft' : FinishTiming) (text decision reason : String) (j : Json) (s ss : S)
      (cs : C) (c d : WorkflowContext Json Float C S)
      → get_checkpoint serde states "submitted" c ≡ (ok none, c)
      → codec.to_value (title_of serde codec field cases states c) ≡ ok j
      → serde.to_string j ≡ ok text
      → serde.is_null j ≡ false
      → states.save t.saved_at c.case.case_key (checkpoint_step_key "submitted") text c.state_store
        ≡ (ok tt, s)
      → field_of field c.case.resource_data "decision" ≡ none
      → d.case.case_key ≡ c.case.case_key
      → d.state_store ≡ s
      → d.checkpoint_cache ≡ []
      → field_of field d.case.resource_data "decision" ≡ some decision
      → or_text (field_of field d.case.resource_data "reason") decision ≡ reason
      → cases.upsert (mc_finish ft'.updated_at decision reason d.case) d.case_store ≡ (ok tt, cs)
      → states.delete_by_case d.case.case_key s ≡ (ok tt, ss)
      → (key : String)
      → ((run serde codec field cases states t ft c).0
          ≡ ok (waits (review_poll c.case.case_key ∷ [])))
        × ((run serde codec field cases states t ft c).1.state_store ≡ s)
        × ((run serde codec field cases states t' ft' d).0 ≡ ok (finishes decision reason))
        × ((run serde codec field cases states t' ft' d).1.case
            ≡ mc_finish ft'.updated_at decision reason d.case)
        × ((run serde codec field cases states t' ft' d).1.case_store ≡ cs)
        × (states.get d.case.case_key key
              (run serde codec field cases states t' ft' d).1.state_store
            ≡ ok none)
  run_waits_and_finishes t t' ft ft' text decision reason j s ss cs c d not_saved value prints there
        saved undecided same_case same_store fresh decided reasoned stored deleted key =
      let title = title_of serde codec field cases states c in
      let title' = title_of serde codec field cases states d in
      let once =
        step_once serde codec states laws round_trip store t t' "submitted" text title j s
          (submit serde codec field cases states title)
          (submit serde codec field cases states title') c c c d not_saved refl value prints saved
          same_case same_store fresh there in
      let e =
        (step serde codec states t' "submitted" (submit serde codec field cases states title')
          d).1 in
      let kept =
        first_submission serde codec field cases states t text j s c not_saved value prints saved in
      let waited =
        run_decides serde codec field cases states t ft title none c once.0 kept undecided in
      let stored' : cases.upsert (mc_finish ft'.updated_at decision reason e.case) e.case_store
          ≡ (ok tt, cs) =
        rw (once.3, once.4) stored in
      let ended =
        run_decides serde codec field cases states t' ft' title (some decision) d once.2 once.3
          decided
        ∙ decide_finishes serde codec field cases states ft' decision reason cs e
            (rw (once.3) reasoned) stored' in
      let left = finish_lem cases states ft' decision reason e cs stored' in
      let cleaned =
        finish_cleans_up cases states ft' decision reason e cs ss e.case.case_key key store stored'
          (rw (once.3, once.5, same_store) deleted) in
      let gone : states.get e.case.case_key key
            (finish cases states ft' decision reason e).1.state_store
          ≡ ok none =
        ground (arith, cleaned, string_eq.same_iff e.case.case_key e.case.case_key) in
      let ended_case = left.1 ∙ ap (mc_finish ft'.updated_at decision reason) once.3 in
      rw (waited, ended) (rw kept refl, once.1, refl, ended_case, left.2, rw (once.3) at gone)
