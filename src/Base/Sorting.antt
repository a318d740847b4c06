-- ===== src/Base/Sorting.antt =====
-- `Vec::sort` on numbers, as an insertion sort.
use Prim.Native.Nat.{ℕ, suc}
use mathlib.Core.Path.{◌≡◌, refl, ap, ◌∙◌}
use mathlib.Core.List.{List, [], ◌∷◌}
use mathlib.Core.Logic.{inl, inr}
use tianshu_rs.Base.Tests.{leb, if◌then◌else◌, Bool-cases}
use tianshu_rs.Base.Lists.{length}

unfoldable pub place : ℕ → List ℕ → List ℕ
place n [] = n ∷ []
place n (m ∷ ms) = let rest = place n ms in if leb n m then n ∷ m ∷ ms else m ∷ rest

unfoldable pub sort : List ℕ → List ℕ
unfolding place
sort [] = []
sort (n ∷ ns) = place n (sort ns)

length-place : (n : ℕ) (ms : List ℕ) → length (place n ms) ≡ suc (length ms)
unfolding place
length-place n [] = refl
length-place n (m ∷ ms) = elim (Bool-cases (leb n m)) [
  | inl h ↦ rw (h) refl
  | inr h ↦ rw (h) (ap suc (length-place n ms))
]

pub length-sort : (ns : List ℕ) → length (sort ns) ≡ length ns
unfolding sort
length-sort [] = refl
length-sort (n ∷ ns) = length-place n (sort ns) ∙ ap suc (length-sort ns)
