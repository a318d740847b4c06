-- ===== src/Approval/Options.antt =====
-- examples/approval_workflow/src/main.rs: what the program reads from its command line.
use Prim.Native.Char.{code}
use tianshu_rs.Base.{
  ℕ, ◌+◌, ◌-◌, ◌*◌, String, Bool, true, false, ◌&&◌, Option, none, some, List, [], ◌∷◌, ◌==◌,
  string_eq, nat_eq, leb, ltb, if◌then◌else◌,
}

-- `args.windows(2).find(|w| w[0] == name).map(|w| w[1])`
unfoldable pub value_after : (name : String) → List String → Option String
value_after name [] = none
value_after name (a ∷ []) = none
value_after name (a ∷ b ∷ args) =
    let rest = value_after name (b ∷ args) in if a == name then some b else rest

-- `args.iter().any(|a| a == name)`
unfoldable pub has_flag : (name : String) → List String → Bool
has_flag name [] = false
has_flag name (a ∷ args) = let rest = has_flag name args in if a == name then true else rest

abbrev digits : String → ℕ → Option ℕ
digits String.[] n = some n
digits (String.◌∷◌ c s) n =
    let rest = digits s (n * 10 + (code c - 48)) in
    if leb 48 (code c) && leb (code c) 57 then rest else none

abbrev within_u16 : Option ℕ → Option ℕ
within_u16 none = none
within_u16 (some n) = if ltb n 65536 then some n else none

abbrev digits_from : String → Option ℕ
digits_from String.[] = none
digits_from (String.◌∷◌ c s) = digits (String.◌∷◌ c s) 0

-- `parse::<u16>()`, which allows a plus sign
unfoldable pub parse_u16 : String → Option ℕ
parse_u16 String.[] = none
parse_u16 (String.◌∷◌ c s) =
    within_u16 (if code c == 43 then digits_from s else digits_from (String.◌∷◌ c s))

abbrev parsed : Option String → Option ℕ
parsed none = none
parsed (some s) = parse_u16 s

abbrev is_some : Option String → Bool
is_some none = false
is_some (some s) = true

pub record Options : Type 0 where
  pub use_postgres : Bool
  pub use_parallel : Bool
  pub dashboard_port : Option ℕ
  pub jsonl_path : Option String

unfoldable pub read_options : List String → Options
unfolding value_after has_flag parse_u16
read_options args = record {
  use_postgres = is_some (value_after "--postgres" args);
  use_parallel = has_flag "--parallel" args;
  dashboard_port = parsed (value_after "--dashboard" args);
  jsonl_path = value_after "--jsonl" args;
}
