-- ===== src/Store/Tests.antt =====
-- The in-memory stores at concrete inputs.
use tianshu_rs.Base.{ℕ, none, some, List, [], ◌∷◌, ok, ◌≡◌, string_eq, length, filter}
use mathlib.Core.List.{Perm}
use tianshu_rs.Base.HashMap
use tianshu_rs.Case
use tianshu_rs.Case.{Case, waiting, running}
use tianshu_rs.Store.{CaseFilter}
use tianshu_rs.Store.Memory
use tianshu_rs.Store.Memory.{InMemoryCaseStore}
use tianshu_rs.Store.Queries.{unpaged, IsOldestFirst, list-sorted_matches}

abbrev newer : Case ℕ
newer = Case.new 9 "b" "s" "review"

abbrev cases : InMemoryCaseStore ℕ
cases =
    ("b", newer)
    ∷ ("a", Case.new 4 "a" "s" "review")
    ∷ ("c", Case.mc_wait 8 (Case.new 6 "c" "t" "review"))
    ∷ []

abbrev all_running : CaseFilter
all_running = record {
  execution_state = some running;
  created_after = none;
  created_before = none;
  updated_after = none;
  limit = some 1;
  offset = none;
}

list-sorted_matches_example :
    (l : List (Case ℕ)) × (Memory.list (unpaged all_running) cases ≡ ok l)
    × IsOldestFirst l
    × Perm l (filter (Memory.matches all_running) (HashMap.values cases))
    × (Memory.count all_running cases ≡ ok (length l))
list-sorted_matches_example = list-sorted_matches all_running cases
