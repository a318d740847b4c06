-- ===== src/Context/Children/Spawned.antt =====
-- crates/workflow_engine/src/context.rs: what a spawn writes, over the in-memory case store.
use tianshu_rs.Base.{
  ℕ, String, none, some, List, [], ◌∷◌, ◌++◌, Result, ok, err, map, ◌≡◌, ◌≢◌, refl, arith,
  string_eq, ap, ◌∙◌, Option, ◌==◌, if◌then◌else◌,
}
use tianshu_rs.Base.HashMap
use tianshu_rs.Base.HashMap.{get-insert, get-insert_self}
use tianshu_rs.Case
use tianshu_rs.Case.{Case, ExecutionState}
use tianshu_rs.Spawn.{SpawnConfig, ChildHandle}
use tianshu_rs.Store.{CaseStore, IsCaseStore, KeepsCreation}
use tianshu_rs.Store.Memory.{InMemoryCaseStore, in_memory_case_store}
use tianshu_rs.Store.Memory
use tianshu_rs.Context.{WorkflowContext}
use tianshu_rs.Context.Children.{child_key, child_case, spawn_child, spawn_children}

abbrev pub handle_keys : Result (List ChildHandle) → Result (List String)
handle_keys (err e) = err e
handle_keys (ok hs) = ok (map (λ h. h.case_key) hs)

same_keys :
    {Json : Type 0} (stamp : ℕ) (parent : String) (a b : SpawnConfig Json)
    → a.case_key ≡ none
    → b.case_key ≡ none
    → a.workflow_code ≡ b.workflow_code
    → child_key stamp parent a ≡ child_key stamp parent b
unfolding child_key
same_keys stamp parent a b ka kb same = ground arith

get_under :
    {V : Type 0} (m : HashMap.HashMap String V) (key k : String) (v w : V)
    → key ≢ k
    → HashMap.get (HashMap.insert (HashMap.insert m key v) k w) key ≡ some v
get_under m key k v w ne = ground (
  arith,
  get-insert (HashMap.insert m key v) k key w,
  get-insert_self m key v,
  string_eq.same_iff k key,
)

KeepsCreation-created_at :
    {Json : Type 0} (old : Option (Case Json)) (c d : Case Json)
    → c.created_at ≡ d.created_at
    → KeepsCreation old c
    → KeepsCreation old d
KeepsCreation-created_at none c d e h = tt
KeepsCreation-created_at (some old) c d e h = h ∙ e

module _ {Json Float C S : Type 0} (cases : CaseStore Json C) where
  -- Over a case store that meets the laws, a spawn with a new key that is not the parent's, where both
  -- upserts succeed, returns a handle with that key and appends it to the parent's children. In the
  -- store, which had no case of the new key and a parent, if any, that was created when the
  -- context's was, the key finds the child, running, with the parent's key and session, the parent's key finds the
  -- parent with its new children, and the other keys find what they found.
  pub spawn_child_stores :
      IsCaseStore cases
      → (stamp now : ℕ) (config : SpawnConfig Json) (c : WorkflowContext Json Float C S)
        (old : Option (Case Json)) (σ σ' : C)
      → let key = child_key stamp c.case.case_key config in
        let parent : Case Json = record c.case { child_keys = c.case.child_keys ++ key ∷ [] } in
        key ≢ c.case.case_key
        → cases.get_by_key key c.case_store ≡ ok none
        → cases.get_by_key c.case.case_key c.case_store ≡ ok old
        → KeepsCreation old c.case
        → cases.upsert (child_case stamp now config c) c.case_store ≡ (ok tt, σ)
        → cases.upsert parent σ ≡ (ok tt, σ')
        → ((spawn_child cases stamp now config c).0
            ≡ ok (record { case_key = key; workflow_code = config.workflow_code }))
          × ((spawn_child cases stamp now config c).1.case ≡ parent)
          × ((child_case stamp now config c).execution_state ≡ ExecutionState.running)
          × ((child_case stamp now config c).parent_key ≡ some c.case.case_key)
          × ((child_case stamp now config c).session_id ≡ c.case.session_id)
          × ((k : String)
              → cases.get_by_key k (spawn_child cases stamp now config c).1.case_store ≡ (
                  if c.case.case_key == k
                  then ok (some parent)
                  else (if key == k
                      then ok (some (child_case stamp now config c))
                      else cases.get_by_key k c.case_store)))
  unfolding spawn_child Case.new
  spawn_child_stores laws stamp now config c old σ σ' apart fresh was kept first second =
      let child = child_case stamp now config c in
      let key = child_key stamp c.case.case_key config in
      let parent : Case Json = record c.case { child_keys = c.case.child_keys ++ key ∷ [] } in
      let there = laws.get-upsert child none c.case_store σ fresh tt first in
      let same : cases.get_by_key c.case.case_key σ ≡ ok old =
        ground (arith, there c.case.case_key, string_eq.same_iff key c.case.case_key, was) in
      let found =
        laws.get-upsert parent old σ σ' same (KeepsCreation-created_at old c.case parent refl kept)
          second in
      let handle : ChildHandle = record { case_key = key; workflow_code = config.workflow_code } in
      let ran : spawn_child cases stamp now config c
          ≡ (ok handle, record c { case = parent; case_store = σ' }) =
        rw (first, spawn_child) (rw second refl) in
      rw ran (
        refl,
        refl,
        refl,
        refl,
        refl,
        λ k. found k ∙ ap (λ r. if c.case.case_key == k then ok (some parent) else r) (there k),
      )

module _ {Json Float S : Type 0} where
  -- Two children with one workflow code and no key of their own, spawned within one millisecond,
  -- get one key: both handles name it, the parent lists it twice, and of the two cases the store
  -- has the second alone.
  pub spawn_same_millisecond :
      (stamp now now' : ℕ) (a b : SpawnConfig Json)
      (c : WorkflowContext Json Float (InMemoryCaseStore Json) S)
      → a.case_key ≡ none
      → b.case_key ≡ none
      → a.workflow_code ≡ b.workflow_code
      → child_key stamp c.case.case_key b ≢ c.case.case_key
      → let key = child_key stamp c.case.case_key b in
        let r = spawn_children in_memory_case_store ((stamp, now, a) ∷ (stamp, now', b) ∷ []) c in
        (handle_keys r.0 ≡ ok (key ∷ key ∷ []))
        × (r.1.case.child_keys ≡ (c.case.child_keys ++ key ∷ []) ++ key ∷ [])
        × (Memory.get_by_key key r.1.case_store ≡ ok (some (child_case stamp now' b c)))
  unfolding spawn_children Memory.upsert Memory.get_by_key Case.new
  spawn_same_millisecond stamp now now' a b c ka kb same ne =
      let keys = same_keys stamp c.case.case_key a b ka kb same in
      let k = c.case.case_key in
      let key = child_key stamp k b in
      let parent = record c.case { child_keys = (c.case.child_keys ++ key ∷ []) ++ key ∷ [] } in
      rw keys (refl, refl, ap ok (get_under _ key k (child_case stamp now' b c) parent ne))
