-- ===== src/Store/Replaced.antt =====
-- crates/workflow_engine/src/store.rs: what `InMemoryCaseStore` finds after an upsert.
use tianshu_rs.Base.{String, some, Result, ok, ◌≡◌, arith, ◌==◌, string_eq, if◌then◌else◌, ap}
use tianshu_rs.Base.HashMap
use tianshu_rs.Base.HashMap.{get-insert}
use tianshu_rs.Case.{Case}
use tianshu_rs.Store.{IsCaseStore}
use tianshu_rs.Store.Memory.{InMemoryCaseStore, in_memory_case_store, upsert, get_by_key}

module _ {Json : Type 0} where
  get-upsert :
      (c : Case Json) (m m' : InMemoryCaseStore Json)
      → upsert c m ≡ (ok tt, m')
      → (k : String) → get_by_key k m' ≡ (if c.case_key == k then ok (some c) else get_by_key k m)
  unfolding upsert get_by_key
  get-upsert c m m' e k =
      let made : HashMap.insert m c.case_key c ≡ m' =
        ap (λ (r : Result Unit × InMemoryCaseStore Json). r.1) e in
      rw (← made) (ground (arith, get-insert m c.case_key k c))

  -- The in-memory case store meets the laws of a case store: after an upsert the key of the case finds
  -- it, and the other keys find what they found.
  pub in_memory-IsCaseStore : IsCaseStore (in_memory_case_store {Json = Json})
  in_memory-IsCaseStore = record { get-upsert = λ c old m m' was kept e k. get-upsert c m m' e k }
