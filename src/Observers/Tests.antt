-- ===== src/Observers/Tests.antt =====
-- Observers at concrete events: a probe, a flush and another probe.
mod Jsonl
use tianshu_rs.Base.{ℕ, suc, List, [], ◌∷◌, ◌≡◌, map, filter}
use tianshu_rs.Observe.{Event, on_probe, flush, ProbeRecord, ProbeOutcome}
use tianshu_rs.Observers.Memory
use tianshu_rs.Observers.Memory.{max_probe_records, new}
use tianshu_rs.Observers.Memory.Latest.{latest, probes_of, steps_of, probes-observe_all}
use tianshu_rs.Observers.Composite
use tianshu_rs.Observers.Composite.{Child, alone, is_forwarded, observe_all-alone}

abbrev probe : ℕ → ProbeRecord
probe n = record {
  case_key = "a";
  workflow_code = "review";
  poll_count = 0;
  outcome = ProbeOutcome.resumed;
  duration_ms = 1;
  timestamp = n;
}

abbrev events : List (Event ℕ ℕ)
events = on_probe (probe 1) ∷ flush ∷ on_probe (probe 2) ∷ []

probes-observe_all_example :
    ((Memory.observe_all events new).probes ≡ latest max_probe_records (probes_of events))
    × ((Memory.observe_all events new).steps ≡ steps_of events)
probes-observe_all_example = probes-observe_all events

-- a child that counts what it sees
abbrev child : Child ℕ ℕ ℕ
child = record { observer = λ e n. suc n; state = 0 }

observe_all-alone_example :
    Composite.observe_all events (child ∷ child ∷ [])
    ≡ map (alone (filter is_forwarded events)) (child ∷ child ∷ [])
observe_all-alone_example = observe_all-alone events (child ∷ child ∷ [])
