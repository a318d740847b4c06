-- ===== src/Dashboard/Stats.antt =====
-- crates/workflow_engine_dashboard/src/metrics.rs, and the handler of the figures. `Figures` stands for the
-- arithmetic of `f64`.
use tianshu_rs.Base.{
  ℕ, ◌+◌, ◌-◌, ◌*◌, ◌/◌, String, not, ◌&&◌, Option, none, some, List, [], ◌∷◌, map, filter, ◌==◌,
  string_eq, if◌then◌else◌, leb, eqb, length, get_elem?,
}
use tianshu_rs.Base.Sorting
use tianshu_rs.Case.{Case, ExecutionState}
use tianshu_rs.Store.{CaseStore}
use tianshu_rs.Observe.{ProbeRecord}
use tianshu_rs.Dashboard.{in_state, unwrap_or}

pub record Figures (Float : Type 0) : Type 0 where
  pub of : ℕ → Float
  pub over : Float → Float → Float

pub record StatsResponse (Float : Type 0) : Type 0 where
  pub running_count : ℕ
  pub waiting_count : ℕ
  pub finished_count : ℕ
  pub completion_rate : Float
  pub avg_duration_ms : Float
  pub p50_duration_ms : Float
  pub p99_duration_ms : Float
  pub avg_probe_ms : Float
  pub window_days : ℕ

abbrev pub sum : List ℕ → ℕ
sum [] = 0
sum (n ∷ ns) = n + sum ns

-- a statement that indexes a list panics where there is nothing at the index: `none`
abbrev pub stats_with :
    {Float : Type 0}
    → Option ℕ
    → Option ℕ
    → (ℕ → ℕ → StatsResponse Float)
    → Option (StatsResponse Float)
stats_with none p99 stats = none
stats_with (some p50) none stats = none
stats_with (some p50) (some p99) stats = some (stats p50 p99)

abbrev pub percentile : List ℕ → ℕ → Option ℕ
percentile [] index = some 0
percentile (d ∷ durations) index = get_elem? (d ∷ durations) index

-- `updated_at - created_at`, not below 0
abbrev pub duration_ms : {Json : Type 0} → Case Json → ℕ
duration_ms c = c.updated_at - c.created_at

module _ {Json C : Type 0} (cases : CaseStore Json C) where
  abbrev pub finished_since : ℕ → C → List (Case Json)
  finished_since window_start store =
      unwrap_or
        (cases.list
          (record (in_state ExecutionState.finished) { updated_after = some window_start }) store)
        []

module _ {Json Float C : Type 0} (figures : Figures Float) (cases : CaseStore Json C) where
  abbrev mean : List ℕ → Float
  mean [] = figures.of 0
  mean (n ∷ ns) = figures.over (figures.of (sum (n ∷ ns))) (figures.of (length (n ∷ ns)))

  abbrev completion_rate : ℕ → ℕ → Float
  completion_rate finished active =
      if eqb finished 0 && eqb active 0
      then figures.of 0
      else figures.over (figures.of finished) (figures.of (finished + active))

  unfoldable pub compute_stats :
      (now : ℕ) → C → List ProbeRecord → (window_days : ℕ) → Option (StatsResponse Float)
  compute_stats now store probes window_days =
      let window_start = now - window_days * 86400000 in
      let count : ExecutionState → ℕ = λ state. unwrap_or (cases.count (in_state state) store) 0 in
      let recent : ExecutionState → List (Case Json) = λ state.
        unwrap_or (cases.list (record (in_state state) { created_after = some window_start }) store)
          [] in
      let finished = finished_since cases window_start store in
      let active =
        length (recent ExecutionState.running) + length (recent ExecutionState.waiting) in
      let durations = Sorting.sort (map duration_ms finished) in
      let n = length durations in
      let shown = filter (λ r. not (leb r.timestamp window_start)) probes in
      stats_with (percentile durations (n / 2)) (percentile durations (n * 99 / 100)) λ p50 p99.
        record {
          running_count = count ExecutionState.running;
          waiting_count = count ExecutionState.waiting;
          finished_count = length finished;
          completion_rate = completion_rate (length finished) active;
          avg_duration_ms = mean durations;
          p50_duration_ms = figures.of p50;
          p99_duration_ms = figures.of p99;
          avg_probe_ms = mean (map (λ r. r.duration_ms) shown);
          window_days = window_days;
        }

unfoldable pub parse_window_days : Option String → ℕ
parse_window_days none = 1
parse_window_days (some s) = if s == "3d" then 3 else if s == "7d" then 7 else 1

unfoldable pub get_stats :
    {Json Float C : Type 0} (figures : Figures Float) (cases : CaseStore Json C)
    → (now : ℕ) → C
    → List ProbeRecord
    → (window : Option String) → Option (StatsResponse Float)
unfolding compute_stats parse_window_days
get_stats figures cases now store probes window =
    compute_stats figures cases now store probes (parse_window_days window)
