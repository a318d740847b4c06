-- ===== src/Approval/Tests/Options.antt =====
-- The command line and what it chooses, at concrete inputs.
use tianshu_rs.Base.{true, false, none, some, [], ◌∷◌, ◌≡◌, refl, string_eq}
use tianshu_rs.Approval.Options.{read_options, value_after, has_flag, parse_u16}
use tianshu_rs.Approval.Setup.{in_memory, over_postgres, chosen_stores}

options_read :
    read_options ("demo" ∷ "--parallel" ∷ "--dashboard" ∷ "8080" ∷ "--jsonl" ∷ []) ≡ record {
      use_postgres = false;
      use_parallel = true;
      dashboard_port = some 8080;
      jsonl_path = none;
    }
unfolding read_options value_after has_flag parse_u16
options_read = refl

-- without the feature, and without a URL after the flag, the stores are in memory
stores_chosen :
    (chosen_stores true ("demo" ∷ "--postgres" ∷ "url" ∷ []) ≡ over_postgres "url")
    × (chosen_stores false ("demo" ∷ "--postgres" ∷ "url" ∷ []) ≡ in_memory)
    × (chosen_stores true ("demo" ∷ "--postgres" ∷ []) ≡ in_memory)
unfolding chosen_stores value_after
stores_chosen = (refl, refl, refl)
