-- ===== src/Dashboard/Bounds.antt =====
-- crates/workflow_engine_dashboard/src: the indices of the percentiles, and the size of a page.
use tianshu_rs.Base.{
  ℕ, ◌-◌, ◌*◌, ◌/◌, ◌<◌, ◌≤◌, min, String, Option, none, some, List, [], ◌∷◌, map, ◌≡◌, refl, arith,
  length, take, get_elem?-lt, length-map, length-take, inl, inr, Bool-cases, ◌==◌, string_eq, ◌⊎◌,
}
use tianshu_rs.Base.Sorting
use tianshu_rs.Case.{Case}
use tianshu_rs.Store.{CaseStore}
use tianshu_rs.Store.Memory.{InMemoryCaseStore, in_memory_case_store, list}
use tianshu_rs.Observe.{ProbeRecord}
use tianshu_rs.Dashboard.{CasesParams, get_cases, case_row, is_active_asked, or_number}
use tianshu_rs.Dashboard.Stats.{
  Figures, StatsResponse, percentile, stats_with, duration_ms, finished_since, compute_stats,
  parse_window_days, get_stats,
}

percentile-lt :
    (ds : List ℕ) (index : ℕ)
    → (0 < length ds → index < length ds)
    → (p : ℕ) × (percentile ds index ≡ some p)
percentile-lt [] index h = (0, refl)
percentile-lt (d ∷ ds) index h = get_elem?-lt (d ∷ ds) index (h (omega arith))

-- a window of 1, 3 or 7 days
abbrev pub IsWindow : ℕ → Type 0
IsWindow days = (days ≡ 1) ⊎ (days ≡ 3) ⊎ (days ≡ 7)

parse_window_days-IsWindow : (window : Option String) → IsWindow (parse_window_days window)
unfolding parse_window_days
parse_window_days-IsWindow none = inl refl
parse_window_days-IsWindow (some s) = elim (Bool-cases (s == "3d")) [
  | inl h ↦ rw (h) (inr (inl refl))
  | inr h ↦ rw (h) (elim (Bool-cases (s == "7d")) [
    | inl h' ↦ rw (h') (inr (inr refl))
    | inr h' ↦ rw (h') (inl refl)
  ])
]

-- figures with both percentiles inside the list
stats_with-inside :
    {Float : Type 0} (P : StatsResponse Float → Type 0) (ds : List ℕ) (i j : ℕ)
    (stats : ℕ → ℕ → StatsResponse Float)
    → (0 < length ds → i < length ds)
    → (0 < length ds → j < length ds)
    → ((p q : ℕ) → P (stats p q))
    → (s : StatsResponse Float) × (stats_with (percentile ds i) (percentile ds j) stats ≡ some s)
      × P s
stats_with-inside P ds i j stats h h' known =
    let (p, at_i) = percentile-lt ds i h in
    let (q, at_j) = percentile-lt ds j h' in (stats p q, rw (at_i) (rw (at_j) refl), known p q)

module _ {Json Float C : Type 0} (figures : Figures Float) (cases : CaseStore Json C) where
  -- The figures are computed without a panic on every store and every observer, for a window of 1, 3
  -- or 7 days: the indices of the two percentiles stand inside the list of durations.
  pub get_stats_answers :
      (now : ℕ) (store : C) (probes : List ProbeRecord) (window : Option String)
      → (stats : StatsResponse Float) × (get_stats figures cases now store probes window
          ≡ some stats)
        × IsWindow stats.window_days
  unfolding get_stats compute_stats
  get_stats_answers now store probes window =
      let window_start = now - parse_window_days window * 86400000 in
      let ds = Sorting.sort (map duration_ms (finished_since cases window_start store)) in
      stats_with-inside (λ s. IsWindow s.window_days) ds (length ds / 2) (length ds * 99 / 100) _
        (λ h. omega (arith, h)) (λ h. omega (arith, h)) λ p q. parse_window_days-IsWindow window

page-le :
    {A : Type 0} (now limit : ℕ) (cs : List (Case A))
    → length (map (case_row now) (take (min limit 100) cs)) ≤ 100
page-le now limit cs =
    rw (length-map (case_row now) (take (min limit 100) cs))
      (rw (length-take (min limit 100) cs) (omega arith))

-- Over the store in memory, the page of cases that is answered has at most 100 of them, whatever limit,
-- offset and state are asked for.
pub get_cases_bounds :
    {A : Type 0} (now : ℕ) (params : CasesParams) (store : InMemoryCaseStore A)
    → length (get_cases in_memory_case_store now params store).items ≤ 100
unfolding get_cases list
get_cases_bounds now params store = elim (Bool-cases (is_active_asked params.state)) [
  | inl h ↦ rw (h, get_cases) (page-le now (or_number params.limit 20) _)
  | inr h ↦ rw (h, get_cases) (page-le now (or_number params.limit 20) _)
]
