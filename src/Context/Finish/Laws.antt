-- ===== src/Context/Finish/Laws.antt =====
-- crates/workflow_engine/src/context.rs: what `finish` leaves behind.
use tianshu_rs.Base.{
  String, true, none, [], ◌∷◌, ◌++◌, Result, ok, err, Error, ◌≡◌, arith, ◌==◌, string_eq,
  if◌then◌else◌, ◌∙◌, ap,
}
use tianshu_rs.Case.{Case, mc_finish}
use tianshu_rs.Observe.{on_workflow_complete, flush}
use tianshu_rs.Store.{CaseStore, StateStore, IsStateStore}
use tianshu_rs.Context.{WorkflowContext}
use tianshu_rs.Context.Finish.{FinishTiming, workflow_record, finish}

module _ {Json Float C S : Type 0} (cases : CaseStore Json C) (states : StateStore S)
    (t : FinishTiming) (type description : String) (c : WorkflowContext Json Float C S) where
  abbrev finished_case : Case Json
  finished_case = mc_finish t.updated_at type description c.case

  -- Where the case store takes the finished case, `finish` succeeds, whether or not the clean-up of
  -- the case's state does: the context has the finished case, the store is what the upsert of it
  -- left, and the cache and the step records are empty.
  pub finish_lem :
      (cs : C)
      → cases.upsert finished_case c.case_store ≡ (ok tt, cs)
      → let r = finish cases states t type description c in
        (r.0 ≡ ok tt)
        × (r.1.case ≡ finished_case)
        × (r.1.case_store ≡ cs)
        × (r.1.checkpoint_cache ≡ [])
        × (r.1.step_records ≡ [])
        × (r.1.state_store ≡ (states.delete_by_case c.case.case_key c.state_store).1)
  unfolding finish mc_finish
  finish_lem cs stored = ground arith

  -- Where the case store takes the finished case, an observer that is attached gets one record of
  -- the finished workflow, with every step record of the context, and then a flush.
  pub finish_announces :
      (cs : C)
      → cases.upsert finished_case c.case_store ≡ (ok tt, cs)
      → c.observed ≡ true
      → (finish cases states t type description c).1.events
        ≡ (c.events
            ++ on_workflow_complete
                (workflow_record cases states t (record c { case = finished_case }))
              ∷ [])
          ++ flush ∷ []
  unfolding finish mc_finish
  finish_announces cs stored watched = ground arith

  -- Where the case store refuses the finished case, its error is returned and the state of the case
  -- is kept: nothing is deleted, cached or announced.
  pub finish_refused :
      (e : Error) (cs : C)
      → cases.upsert finished_case c.case_store ≡ (err e, cs)
      → let r = finish cases states t type description c in
        (r.0 ≡ err e)
        × (r.1.state_store ≡ c.state_store)
        × (r.1.checkpoint_cache ≡ c.checkpoint_cache)
        × (r.1.events ≡ c.events)
  unfolding finish mc_finish
  finish_refused e cs stored = ground arith

  -- Where the case store takes the finished case and the clean-up succeeds, `finish` leaves no entry
  -- of the case in a state store that meets the laws, and those of the other cases as they were.
  pub finish_cleans_up :
      (cs : C) (ss : S) (key step : String)
      → IsStateStore states
      → cases.upsert finished_case c.case_store ≡ (ok tt, cs)
      → states.delete_by_case c.case.case_key c.state_store ≡ (ok tt, ss)
      → states.get key step (finish cases states t type description c).1.state_store
        ≡ (if c.case.case_key == key then ok none else states.get key step c.state_store)
  finish_cleans_up cs ss key step store stored deleted =
      let left = (finish_lem cs stored).5 in
      ap (states.get key step) (left ∙ ap (λ (r : Result Unit × S). r.1) deleted)
      ∙ store.get-delete_by_case c.case.case_key c.state_store ss deleted key step
