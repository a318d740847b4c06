-- ===== src/Case/Lifecycle.antt =====
-- crates/workflow_engine/src/case.rs: which cases the scheduler may run, and how states print.
use tianshu_rs.Base.{ℕ, String, true, false, some, ◌≡◌, ◌≢◌, ◌↔◌, refl, ap, ◌∙◌, arith, string_eq}
use tianshu_rs.Case.{
  ExecutionState, running, waiting, finished, to_string, from_str_lowercase, Case, mc_finish,
  is_active,
}

from_str-to_string : (s : ExecutionState) → from_str_lowercase (to_string s) ≡ some s
unfolding from_str_lowercase to_string
from_str-to_string running = refl
from_str-to_string waiting = refl
from_str-to_string finished = refl

to_string_of_from_str :
    (t : String) (s : ExecutionState) → from_str_lowercase t ≡ some s → t ≡ to_string s
unfolding from_str_lowercase to_string
to_string_of_from_str t s h = ground (
  arith,
  string_eq.same_iff t "running",
  string_eq.same_iff t "waiting",
  string_eq.same_iff t "finished",
)

-- Parsing accepts exactly the printed states: a text parses to a state exactly when it is what
-- that state prints.
pub from_str-iff-to_string :
    (t : String) (s : ExecutionState) → (from_str_lowercase t ≡ some s) ↔ (t ≡ to_string s)
from_str-iff-to_string t s =
    (to_string_of_from_str t s, λ e. ap from_str_lowercase e ∙ from_str-to_string s)

module _ {Json : Type 0} where
  -- A case is active exactly when it is neither paused nor stopped nor finished.
  pub is_active_iff :
      (c : Case Json)
      → (is_active c ≡ true) ↔ (
          (c.lifecycle_state ≢ "pause")
          × (c.lifecycle_state ≢ "stop")
          × (c.execution_state ≢ finished))
  unfolding is_active
  is_active_iff c = ground (
    arith,
    string_eq.same_iff c.lifecycle_state "pause",
    string_eq.same_iff c.lifecycle_state "stop",
  )

  pub is_active-mc_finish :
      (now : ℕ) (t d : String) (c : Case Json) → is_active (mc_finish now t d c) ≡ false
  unfolding is_active mc_finish
  is_active-mc_finish now t d c = ground arith
