-- ===== src/Store/Memory.antt =====
-- crates/workflow_engine/src/store.rs: `InMemoryCaseStore`, a map from the case key to the case.
-- A lock is held for the whole of each call, so a call is one step.
use tianshu_rs.Base.{
  ℕ, String, Bool, true, not, ◌&&◌, Option, none, some, List, [], ◌∷◌, Result, ok, ◌==◌, string_eq,
  pair_eq, if◌then◌else◌, leb, length, take, drop, filter,
}
use tianshu_rs.Base.HashMap
use tianshu_rs.Base.HashMap.{HashMap}
use tianshu_rs.Case.{Case, state_eq}
use tianshu_rs.Store.{CaseFilter, CaseStore}

-- `if let Some(bound) = … { if !test(bound) { return false } }`
abbrev passes {ℓ} : {A : Type ℓ} → Option A → (A → Bool) → Bool
passes none test = true
passes (some bound) test = test bound

abbrev pub InMemoryCaseStore : Type 0 → Type 0
InMemoryCaseStore Json = HashMap String (Case Json)

module _ {Json : Type 0} where
  unfoldable pub matches : CaseFilter → Case Json → Bool
  matches f c =
      passes f.execution_state (λ state. c.execution_state == state)
      && passes f.created_after (λ after. not (leb c.created_at after))
      && passes f.created_before (λ before. not (leb before c.created_at))
      && passes f.updated_after (λ after. not (leb c.updated_at after))

  -- `sort_by_key(|c| c.created_at)`, a stable sort
  unfoldable pub place : Case Json → List (Case Json) → List (Case Json)
  place c [] = c ∷ []
  place c (d ∷ r) = if leb c.created_at d.created_at then c ∷ d ∷ r else d ∷ place c r

  unfoldable pub sort_by_created : List (Case Json) → List (Case Json)
  unfolding place
  sort_by_created [] = []
  sort_by_created (c ∷ r) = place c (sort_by_created r)

  abbrev skip_by : Option ℕ → List (Case Json) → List (Case Json)
  skip_by none l = l
  skip_by (some n) l = drop n l

  abbrev limit_by : Option ℕ → List (Case Json) → List (Case Json)
  limit_by none l = l
  limit_by (some n) l = take n l

  unfoldable pub upsert :
      Case Json → InMemoryCaseStore Json → Result (Unit {0}) × InMemoryCaseStore Json
  upsert c m = (ok tt, HashMap.insert m c.case_key c)

  unfoldable pub get_by_key : String → InMemoryCaseStore Json → Result (Option (Case Json))
  get_by_key k m = ok (HashMap.get m k)

  unfoldable pub get_by_session : String → InMemoryCaseStore Json → Result (List (Case Json))
  get_by_session id m = ok (filter (λ c. c.session_id == id) (HashMap.values m))

  unfoldable pub list : CaseFilter → InMemoryCaseStore Json → Result (List (Case Json))
  unfolding matches sort_by_created
  list f m = ok (
      limit_by f.limit (skip_by f.offset (sort_by_created (filter (matches f) (HashMap.values m)))))

  unfoldable pub count : CaseFilter → InMemoryCaseStore Json → Result ℕ
  unfolding matches
  count f m = ok (length (filter (matches f) (HashMap.values m)))

  abbrev pub in_memory_case_store : CaseStore Json (InMemoryCaseStore Json)
  in_memory_case_store = record {
    upsert = upsert;
    get_by_key = get_by_key;
    get_by_session = get_by_session;
    list = list;
    count = count;
  }
