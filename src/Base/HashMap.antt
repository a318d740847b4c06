-- ===== src/Base/HashMap.antt =====
-- `std::collections::HashMap`, as an association list with one entry for each key. The order in
-- which Rust iterates over a map is unspecified; here it is the order of the list.
use mathlib.Core.Path.{◌≡◌, refl}
use mathlib.Core.Bool.{Bool, not}
use mathlib.Core.Logic.{inl, inr}
use mathlib.Core.List.{List, [], ◌∷◌, map}
use mathlib.Core.Option
use mathlib.Core.Option.{Option, none, some}
use native.Mathlib.Omega.{arith}
use tianshu_rs.Base.Tests.{Eq, ◌==◌, Bool-cases, if◌then◌else◌}

abbrev pub HashMap {ℓ κ} : Type ℓ → Type κ → Type (ℓ ⊔ κ)
HashMap K V = List (K × V)

module _ {ℓ κ} {K : Type ℓ} {V : Type κ} where
  abbrev pub values : HashMap K V → List V
  values = map (λ e. e.1)

  abbrev pub keys : HashMap K V → List K
  keys = map (λ e. e.0)

module _ {ℓ κ} {K : Type ℓ} {V : Type κ} ⦃e : Eq K⦄ where
  unfoldable pub get : HashMap K V → K → Option V
  get [] k = none
  get ((j, v) ∷ m) k = if j == k then some v else get m k

  unfoldable pub insert : HashMap K V → K → V → HashMap K V
  insert [] k v = (k, v) ∷ []
  insert ((j, w) ∷ m) k v = if j == k then (k, v) ∷ m else (j, w) ∷ insert m k v

  -- `retain` by a test on the key
  unfoldable pub retain_keys : (K → Bool) → HashMap K V → HashMap K V
  retain_keys p [] = []
  retain_keys p ((j, v) ∷ m) = let rest = retain_keys p m in if p j then (j, v) ∷ rest else rest

  unfoldable pub remove : HashMap K V → K → HashMap K V
  unfolding retain_keys
  remove m k = retain_keys (λ j. not (j == k)) m

  pub get-insert :
      (m : HashMap K V) (k j : K) (v : V)
      → get (insert m k v) j ≡ (if k == j then some v else get m j)
  unfolding get insert
  get-insert [] k j v = refl
  get-insert ((i, w) ∷ m) k j v =
      ground (arith, e.same_iff i k, e.same_iff i j, e.same_iff k j, get-insert m k j v)

  pub get-insert_self : (m : HashMap K V) (k : K) (v : V) → get (insert m k v) k ≡ some v
  get-insert_self m k v = ground (arith, get-insert m k k v, e.same_iff k k)

  pub get-retain_keys :
      (p : K → Bool) (m : HashMap K V) (k : K)
      → get (retain_keys p m) k ≡ (if p k then get m k else none)
  unfolding get retain_keys
  get-retain_keys p [] k = ground arith
  get-retain_keys p ((j, v) ∷ m) k =
      let ih = get-retain_keys p m k in
      elim (Bool-cases (j == k)) [
        | inl h ↦ rw ((e.same_iff j k).0 h) (ground (arith, ih, e.same_iff k k))
        | inr h ↦ ground (arith, ih)
      ]

  pub get-remove :
      (m : HashMap K V) (k j : K) → get (remove m k) j ≡ (if j == k then none else get m j)
  unfolding remove
  get-remove m k j = ground (arith, get-retain_keys (λ i. not (i == k)) m j)

  -- `if let Some(v) = m.get_mut(k) { … }`
  unfoldable pub alter : HashMap K V → K → (V → V) → HashMap K V
  alter [] k f = []
  alter ((j, v) ∷ m) k f = if j == k then (j, f v) ∷ m else (j, v) ∷ alter m k f

  pub get-alter :
      (m : HashMap K V) (k j : K) (f : V → V)
      → get (alter m k f) j ≡ (if k == j then Option.map f (get m j) else get m j)
  unfolding get alter
  get-alter [] k j f = ground arith
  get-alter ((i, w) ∷ m) k j f =
      ground (arith, e.same_iff i k, e.same_iff i j, e.same_iff k j, get-alter m k j f)

  pub keys-alter : (m : HashMap K V) (k : K) (f : V → V) → keys (alter m k f) ≡ keys m
  unfolding alter
  keys-alter [] k f = refl
  keys-alter ((i, w) ∷ m) k f = ground (arith, keys-alter m k f)
