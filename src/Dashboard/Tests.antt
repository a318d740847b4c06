-- ===== src/Dashboard/Tests.antt =====
-- The figures over two cases, and the address of a server.
use tianshu_rs.Base.{ℕ, some, [], ◌∷◌, ◌/◌, ◌≡◌, refl, decimal}
use tianshu_rs.Case
use tianshu_rs.Case.{Case, mc_finish}
use tianshu_rs.Store.Memory.{InMemoryCaseStore, in_memory_case_store}
use tianshu_rs.Dashboard.Stats.{Figures, StatsResponse, get_stats}
use tianshu_rs.Dashboard.Bounds.{get_stats_answers}
use tianshu_rs.Dashboard.Server.{DashboardServer, address, with_port}

abbrev figures : Figures ℕ
figures = record { of = λ n. n; over = λ a b. a / b }

abbrev store : InMemoryCaseStore ℕ
store =
    ("a", Case.new 1 "a" "s" "review")
    ∷ ("b", mc_finish 9 "done" "ok" (Case.new 3 "b" "s" "review"))
    ∷ []

-- the figures of the last week
figures_run :
    (stats : StatsResponse ℕ) × (get_stats figures in_memory_case_store 20 store [] (some "7d")
      ≡ some stats)
figures_run =
    let (stats, found, window) =
      get_stats_answers figures in_memory_case_store 20 store [] (some "7d") in
    (stats, found)

abbrev server : DashboardServer ℕ ℕ (InMemoryCaseStore ℕ)
server = record {
  case_store = in_memory_case_store;
  observer = record { steps = []; workflows = []; llm_calls = []; probes = [] };
  port = 8765;
  refresh_secs = 5;
}

address_runs : address (with_port server 8080) ≡ "127.0.0.1:8080"
unfolding address with_port decimal
address_runs = refl
