-- ===== src/Store/Queries.antt =====
-- crates/workflow_engine/src/store.rs: what the in-memory case store answers.
use mathlib.Core.List.{Perm}
use mathlib.Core.List.Perm
use tianshu_rs.Base.{
  ℕ, String, Option, none, some, List, [], ◌∷◌, ◌++◌, ok, ◌≡◌, refl, sym, ap, arith, ◌≤◌, ◌+◌, ◌==◌,
  string_eq, if◌then◌else◌, length, take, drop, filter, take-append-drop, drop-drop, All,
}
use tianshu_rs.Base.HashMap
use tianshu_rs.Base.HashMap.{get-insert}
use tianshu_rs.Case.{Case}
use tianshu_rs.Store.{CaseFilter}
use tianshu_rs.Store.Memory.{
  InMemoryCaseStore, matches, place, sort_by_created, upsert, get_by_key, list, count,
}

abbrev pub unpaged : CaseFilter → CaseFilter
unpaged f = record f { limit = none; offset = none }

abbrev pub page : ℕ → Option ℕ → CaseFilter → CaseFilter
page start size f = record f { offset = some start; limit = size }

module _ {Json : Type 0} where
  -- no case of the list was created before `t`
  abbrev pub NotBefore : ℕ → List (Case Json) → Type 0
  NotBefore t = All (λ c. t ≤ c.created_at)

  abbrev pub IsOldestFirst : List (Case Json) → Type 0
  IsOldestFirst [] = Unit
  IsOldestFirst (c ∷ r) = NotBefore c.created_at r × IsOldestFirst r

  NotBefore-mono : (s t : ℕ) (l : List (Case Json)) → s ≤ t → NotBefore t l → NotBefore s l
  NotBefore-mono s t [] h k = tt
  NotBefore-mono s t (c ∷ r) h k = (omega arith, NotBefore-mono s t r h k.1)

  place-NotBefore :
      (t : ℕ) (c : Case Json) (l : List (Case Json))
      → t ≤ c.created_at
      → NotBefore t l
      → NotBefore t (place c l)
  unfolding place
  place-NotBefore t c [] h k = (h, tt)
  place-NotBefore t c (d ∷ r) h k = ground (arith, place-NotBefore t c r h k.1)

  place-IsOldestFirst :
      (c : Case Json) (l : List (Case Json)) → IsOldestFirst l → IsOldestFirst (place c l)
  unfolding place
  place-IsOldestFirst c [] s = (tt, tt)
  place-IsOldestFirst c (d ∷ r) s = ground (
    arith,
    NotBefore-mono c.created_at d.created_at r,
    place-NotBefore d.created_at c r,
    place-IsOldestFirst c r s.1,
  )

  sort-IsOldestFirst : (l : List (Case Json)) → IsOldestFirst (sort_by_created l)
  unfolding sort_by_created
  sort-IsOldestFirst [] = tt
  sort-IsOldestFirst (c ∷ r) = place-IsOldestFirst c (sort_by_created r) (sort-IsOldestFirst r)

  length-place : (c : Case Json) (l : List (Case Json)) → length (place c l) ≡ length (c ∷ l)
  unfolding place
  length-place c [] = refl
  length-place c (d ∷ r) = ground (arith, length-place c r)

  length-sort : (l : List (Case Json)) → length (sort_by_created l) ≡ length l
  unfolding sort_by_created
  length-sort [] = refl
  length-sort (c ∷ r) = omega (arith, length-place c (sort_by_created r), length-sort r)

  place-perm : (c : Case Json) (l : List (Case Json)) → Perm (place c l) (c ∷ l)
  unfolding place
  place-perm c [] = Perm.refl (c ∷ [])
  place-perm c (d ∷ r) =
      let later = Perm.trans (Perm.cons d (place-perm c r)) (Perm.swap c d r) in
      ground (arith, Perm.refl (c ∷ d ∷ r), later)

  sort-perm : (l : List (Case Json)) → Perm (sort_by_created l) l
  unfolding sort_by_created
  sort-perm [] = Perm.refl []
  sort-perm (c ∷ r) = Perm.trans (place-perm c (sort_by_created r)) (Perm.cons c (sort-perm r))

  -- A listing with no limit and no offset has exactly the matching cases of the store, each as
  -- often as the store holds it, oldest first, and `count` gives its length whatever limit and
  -- offset the filter of the count has.
  pub list-sorted_matches :
      (f : CaseFilter) (m : InMemoryCaseStore Json)
      → (l : List (Case Json)) × (list (unpaged f) m ≡ ok l)
        × IsOldestFirst l
        × Perm l (filter (matches f) (HashMap.values m))
        × (count f m ≡ ok (length l))
  unfolding list count
  list-sorted_matches f m =
      let hits = filter (matches f) (HashMap.values m) in
      (
        sort_by_created hits,
        refl,
        sort-IsOldestFirst hits,
        sort-perm hits,
        ap ok (sym (length-sort hits)),
      )

  -- Reading a page of `n` cases and then all that follows it gives the same cases, in the same
  -- order, as reading all of them from the start of that page.
  pub list-pages :
      (f : CaseFilter) (m : InMemoryCaseStore Json) (start n : ℕ)
      → (front rest : List (Case Json)) × (list (page start (some n) f) m ≡ ok front)
        × (list (page (start + n) none f) m ≡ ok rest)
        × (list (page start none f) m ≡ ok (front ++ rest))
  unfolding list
  list-pages f m start n =
      let l = sort_by_created (filter (matches f) (HashMap.values m)) in
      (
        take n (drop start l),
        drop n (drop start l),
        refl,
        ap ok (sym (drop-drop n start l)),
        ap ok (sym (take-append-drop n (drop start l))),
      )

  -- After an upsert a case is found under its key, and the other keys find what they found.
  pub get_by_key-upsert :
      (c : Case Json) (k : String) (m : InMemoryCaseStore Json)
      → get_by_key k (upsert c m).1 ≡ (if c.case_key == k then ok (some c) else get_by_key k m)
  unfolding get_by_key upsert
  get_by_key-upsert c k m = ground (arith, get-insert m c.case_key k c)
