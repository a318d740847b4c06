-- ===== src/Dashboard.antt =====
-- crates/workflow_engine_dashboard/src/handlers.rs: the pages of cases. Instants are in milliseconds.
pub mod Stats
pub mod Server
pub mod Bounds
mod Tests
use mathlib.Core.Option
use tianshu_rs.Base.{
  ℕ, zero, suc, ◌+◌, ◌-◌, ◌*◌, ◌/◌, ◌<◌, ◌≤◌, min, String, Bool, true, false, not, ◌&&◌, ◌||◌,
  Option, none, some, List, [], ◌∷◌, ◌++◌, map, filter, Result, ok, err, ◌==◌, string_eq,
  if◌then◌else◌, leb, eqb, ℤ, pos, negsuc, length, take, drop, get_elem?, is_empty,
}
use tianshu_rs.Base.Sorting
use tianshu_rs.Case.{Case, ExecutionState, from_str_lowercase, to_string}
use tianshu_rs.Store.{CaseFilter, CaseStore}
use tianshu_rs.Observe.{ProbeRecord}

pub record CaseRow (Json : Type 0) : Type 0 where
  pub case_key : String
  pub workflow_code : String
  pub state : String
  pub created_at : ℕ
  pub age_secs : ℤ
  pub session_id : String
  pub parent_key : Option String
  pub child_count : ℕ
  pub resource_data : Option Json

pub record CasesParams : Type 0 where
  pub state : Option String
  pub limit : Option ℕ
  pub offset : Option ℕ

pub record CasesResponse (Json : Type 0) : Type 0 where
  pub items : List (CaseRow Json)
  pub total : ℕ

-- `CaseFilter::default()`
abbrev pub any_case : CaseFilter
any_case = record {
  execution_state = none;
  created_after = none;
  created_before = none;
  updated_after = none;
  limit = none;
  offset = none;
}

abbrev pub in_state : ExecutionState → CaseFilter
in_state state = record any_case { execution_state = some state }

abbrev pub unwrap_or : {A : Type 0} → Result A → A → A
unwrap_or (ok a) other = a
unwrap_or (err e) other = other

abbrev pub or_number : Option ℕ → ℕ → ℕ
or_number none other = other
or_number (some n) other = n

abbrev pub negated : ℕ → ℤ
negated zero = pos 0
negated (suc n) = negsuc n

-- `(later - earlier).num_seconds()`
abbrev pub seconds_between : (later earlier : ℕ) → ℤ
seconds_between later earlier =
    if leb earlier later then pos ((later - earlier) / 1000) else negated ((earlier - later) / 1000)

module _ {Json : Type 0} where
  abbrev pub case_row : ℕ → Case Json → CaseRow Json
  case_row now c = record {
    case_key = c.case_key;
    workflow_code = c.workflow_code;
    state = to_string c.execution_state;
    created_at = c.created_at;
    age_secs = seconds_between now c.created_at;
    session_id = c.session_id;
    parent_key = c.parent_key;
    child_count = length c.child_keys;
    resource_data = c.resource_data;
  }

  -- `sort_by_key(|b| Reverse(b.created_at))`, a stable sort
  unfoldable pub place_newest : Case Json → List (Case Json) → List (Case Json)
  place_newest c [] = c ∷ []
  place_newest c (d ∷ r) =
      let rest = place_newest c r in if leb d.created_at c.created_at then c ∷ d ∷ r else d ∷ rest

  unfoldable pub newest_first : List (Case Json) → List (Case Json)
  unfolding place_newest
  newest_first [] = []
  newest_first (c ∷ r) = place_newest c (newest_first r)

abbrev pub state_asked : Option String → Option ExecutionState
state_asked none = none
state_asked (some s) = from_str_lowercase s

abbrev pub is_active_asked : Option String → Bool
is_active_asked none = false
is_active_asked (some s) = s == "active"

abbrev active_page : {Json : Type 0} → ℕ → ℕ → ℕ → List (Case Json) → CasesResponse Json
active_page now limit offset found = record {
  items = map (case_row now) (take limit (drop offset (newest_first found)));
  total = length found;
}

module _ {Json C : Type 0} (cases : CaseStore Json C) where
  abbrev listed_page : ℕ → Option ExecutionState → List (Case Json) → C → CasesResponse Json
  listed_page now execution_state found store = record {
    items = map (case_row now) found;
    total =
        unwrap_or (cases.count (record any_case { execution_state = execution_state }) store)
          (length found);
  }

  unfoldable pub get_cases : (now : ℕ) → CasesParams → C → CasesResponse Json
  unfolding newest_first
  get_cases now params store =
      let limit = min (or_number params.limit 20) 100 in
      let offset = or_number params.offset 0 in
      let execution_state = state_asked params.state in
      if is_active_asked params.state
      then active_page now limit offset (
          unwrap_or (cases.list (in_state ExecutionState.running) store) []
          ++ unwrap_or (cases.list (in_state ExecutionState.waiting) store) [])
      else listed_page now execution_state
          (unwrap_or
            (cases.list
              (record any_case {
                execution_state = execution_state;
                limit = some limit;
                offset = some offset;
              })
              store)
            [])
          store
