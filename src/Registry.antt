-- ===== src/Registry.antt =====
-- crates/workflow_engine/src/registry.rs: workflow factories by workflow code. `F` is the type of
-- a workflow.
use Prim.Native.String.{compare}
use text.Mathlib.Text.{is_le}
use mathlib.Core.Option
use tianshu_rs.Base.{
  String, Option, some, List, [], ◌∷◌, ◌≡◌, if◌then◌else◌, ◌==◌, string_eq, arith,
}
use tianshu_rs.Base.HashMap
use tianshu_rs.Base.HashMap.{HashMap, get-insert}
use tianshu_rs.Case.{Case}

abbrev pub WorkflowRegistry : Type 0 → Type 0 → Type 0
WorkflowRegistry Json F = HashMap String (Case Json → F)

module _ {Json F : Type 0} where
  unfoldable pub register :
      WorkflowRegistry Json F → String → (Case Json → F) → WorkflowRegistry Json F
  register r code factory = HashMap.insert r code factory

  unfoldable pub get : WorkflowRegistry Json F → String → Case Json → Option F
  get r code case = Option.map (λ factory. factory case) (HashMap.get r code)

  -- A registered factory is the one that its code gives, in place of an earlier one; the other
  -- codes give what they gave.
  pub get-register :
      (r : WorkflowRegistry Json F) (code other : String) (factory : Case Json → F) (c : Case Json)
      → get (register r code factory) other c
        ≡ (if code == other then some (factory c) else get r other c)
  unfolding get register
  get-register r code other factory c = ground (arith, get-insert r code other factory)

place : String → List String → List String
place s [] = s ∷ []
place s (t ∷ r) = if is_le (compare s t) then s ∷ t ∷ r else t ∷ place s r

-- `Vec::sort` on texts
unfoldable pub sort : List String → List String
unfolding place
sort [] = []
sort (s ∷ r) = place s (sort r)

unfoldable pub registered_codes : {Json F : Type 0} → WorkflowRegistry Json F → List String
unfolding sort
registered_codes r = sort (HashMap.keys r)
