-- ===== src/Postgres/Rows.antt =====
-- The rows of a table with a primary key: how one is found, inserted and deleted.
use mathlib.Core.List.Permᴰ
use mathlib.Core.List.{Permᴰ as Rearranged}
use tianshu_rs.Base.{
  Bool, true, false, not, Option, none, some, List, [], ◌∷◌, ◌≡◌, ◌≢◌, refl, sym, ap, ◌∙◌, arith,
  Eq, ◌==◌, if◌then◌else◌, filter, All, Bool-cases, inl, inr,
}

module _ {Row K : Type 0} ⦃test : Eq K⦄ (key : Row → K) where
  -- no two rows have one key
  abbrev pub IsKeyed : List Row → Type 0
  IsKeyed [] = Unit
  IsKeyed (r ∷ rows) = All (λ s. key s ≢ key r) rows × IsKeyed rows

  -- the row of a key
  abbrev pub find : K → List Row → Option Row
  find k [] = none
  find k (r ∷ rows) = let rest = find k rows in if key r == k then some r else rest

  -- the rows after an insertion that updates the row with its key, where there is one
  unfoldable pub put : (set : Row → Row → Row) → Row → List Row → List Row
  put set r [] = r ∷ []
  put set r (s ∷ rows) =
      let rest = put set r rows in if key s == key r then set r s ∷ rows else s ∷ rest

  -- what an insertion makes of the row with its key
  abbrev pub merged : (set : Row → Row → Row) → Row → Option Row → Row
  merged set r none = r
  merged set r (some old) = set r old

module _ {Row : Type 0} where
  abbrev pub head : List Row → Option Row
  head [] = none
  head (r ∷ rows) = some r

  abbrev pub to_list : Option Row → List Row
  to_list none = []
  to_list (some r) = r ∷ []

  pub head-to_list : (o : Option Row) → head (to_list o) ≡ o
  head-to_list none = refl
  head-to_list (some r) = refl

  kept-Rearranged :
      (b : Bool) (r : Row) {l m : List Row}
      → Rearranged l m
      → Rearranged (if b then r ∷ l else l) (if b then r ∷ m else m)
  kept-Rearranged true r h = Permᴰ.cons refl h
  kept-Rearranged false r h = h

  swapped-Rearranged :
      (x y : Bool) (r s : Row) (l : List Row)
      → Rearranged
          (if x then r ∷ (if y then s ∷ l else l) else (if y then s ∷ l else l))
          (if y then s ∷ (if x then r ∷ l else l) else (if x then r ∷ l else l))
  swapped-Rearranged true true r s l = Permᴰ.swap refl refl
  swapped-Rearranged true false r s l = Permᴰ.refl (r ∷ l)
  swapped-Rearranged false true r s l = Permᴰ.refl (s ∷ l)
  swapped-Rearranged false false r s l = Permᴰ.refl l

  filter-Rearranged :
      (p : Row → Bool) {l m : List Row} → Rearranged l m → Rearranged (filter p l) (filter p m)
  filter-Rearranged p Permᴰ.nil = Permᴰ.nil
  filter-Rearranged p (Permᴰ.cons {a} e h) =
      rw (← e) (kept-Rearranged (p a) a (filter-Rearranged p h))
  filter-Rearranged p (Permᴰ.swap {a} {b} {l = l} e f) =
      rw (← e, ← f) (swapped-Rearranged (p a) (p b) a b (filter p l))
  filter-Rearranged p (Permᴰ.trans h k) =
      Permᴰ.trans (filter-Rearranged p h) (filter-Rearranged p k)

  to_list-Rearranged :
      (o : Option Row) {l m : List Row} → Rearranged l m → l ≡ to_list o → m ≡ to_list o
  to_list-Rearranged o Permᴰ.nil q = q
  to_list-Rearranged none (Permᴰ.cons e h) q = absurd (ground (arith, q))
  to_list-Rearranged (some r) (Permᴰ.cons e h) q =
      let rest = to_list-Rearranged none h (ground (arith, q)) in ground (arith, q, e, rest)
  to_list-Rearranged none (Permᴰ.swap e f) q = absurd (ground (arith, q))
  to_list-Rearranged (some r) (Permᴰ.swap e f) q = absurd (ground (arith, q))
  to_list-Rearranged o (Permᴰ.trans h k) q = to_list-Rearranged o k (to_list-Rearranged o h q)

module _ {Row K : Type 0} ⦃test : Eq K⦄ (key : Row → K) where
  -- `WHERE key = k`
  abbrev pub has_key : K → Row → Bool
  has_key k r = key r == k

  find-absent : (k : K) (l : List Row) → All (λ s. key s ≢ k) l → find key k l ≡ none
  find-absent k [] a = refl
  find-absent k (r ∷ l) a = ground (arith, find-absent k l a.1, test.same_iff (key r) k)

  head-filter : (k : K) (l : List Row) → head (filter (has_key k) l) ≡ find key k l
  head-filter k [] = refl
  head-filter k (r ∷ l) = ground (arith, head-filter k l)

  filter-absent : (k : K) (l : List Row) → All (λ s. key s ≢ k) l → filter (has_key k) l ≡ []
  filter-absent k [] a = refl
  filter-absent k (r ∷ l) a = ground (arith, filter-absent k l a.1, test.same_iff (key r) k)

  pub filter-find :
      (k : K) (l : List Row) → IsKeyed key l → filter (has_key k) l ≡ to_list (find key k l)
  filter-find k [] u = refl
  filter-find k (r ∷ l) u = elim (Bool-cases (key r == k)) [
    | inl same ↦
        let alone = filter-absent (key r) l u.0 in
        rw same (ap (◌∷◌ r) (rw ((test.same_iff (key r) k).0 same) at alone))
    | inr other ↦ rw other (filter-find k l u.1)
  ]

  pub find-Rearranged :
      (k : K) (l m : List Row) → IsKeyed key l → Rearranged l m → find key k m ≡ find key k l
  find-Rearranged k l m u h =
      let same =
        to_list-Rearranged (find key k l) (filter-Rearranged (has_key k) h) (filter-find k l u) in
      sym (head-filter k m) ∙ ap head same ∙ head-to_list (find key k l)

  pub find-put :
      (set : Row → Row → Row) (r : Row) (k : K) (l : List Row)
      → ((old : Row) → key old ≡ key r → key (set r old) ≡ key r)
      → find key k (put key set r l)
        ≡ (if key r == k then some (merged key set r (find key (key r) l)) else find key k l)
  unfolding put
  find-put set r k [] own = refl
  find-put set r k (s ∷ l) own = ground (
    arith,
    find-put set r k l own,
    own s,
    test.same_iff (key s) (key r),
    test.same_iff (key s) k,
    test.same_iff (key r) k,
  )

  pub find-filter :
      (gone : K → Bool) (k : K) (l : List Row)
      → find key k (filter (λ r. not (gone (key r))) l) ≡ (if gone k then none else find key k l)
  find-filter gone k [] = ground arith
  find-filter gone k (r ∷ l) = elim (Bool-cases (key r == k)) [
    | inl same ↦
        let ih = find-filter gone k l in
        let names = (test.same_iff (key r) k).0 same in
        rw (← names) (ground (arith, ih, same, names))
    | inr other ↦ ground (arith, find-filter gone k l)
  ]

  pub find-has_key : (k : K) (l : List Row) (r : Row) → find key k l ≡ some r → key r ≡ k
  find-has_key k [] r e = absurd (ground (arith, e))
  find-has_key k (s ∷ l) r e = ground (arith, find-has_key k l r, test.same_iff (key s) k, e)

  -- an update that gives the excluded row, whatever row has its key
  pub merged-excluded :
      (set : Row → Row → Row) (r : Row) (o : Option Row) (l : List Row)
      → ((old : Row) → key old ≡ key r → set r old ≡ r)
      → find key (key r) l ≡ o
      → merged key set r o ≡ r
  merged-excluded set r none l same e = refl
  merged-excluded set r (some old) l same e = same old (find-has_key (key r) l old e)

  All-kept : (P : Row → Type 0) (p : Row → Bool) (l : List Row) → All P l → All P (filter p l)
  All-kept P p [] a = tt
  All-kept P p (r ∷ l) a = ground (arith, All-kept P p l a.1)

  pub filter-IsKeyed : (p : Row → Bool) (l : List Row) → IsKeyed key l → IsKeyed key (filter p l)
  filter-IsKeyed p [] u = tt
  filter-IsKeyed p (r ∷ l) u =
      let rest = filter-IsKeyed p l u.1 in
      let apart = All-kept (λ s. key s ≢ key r) p l u.0 in ground (arith, rest, apart)

  pub find-kept :
      (kept : K → Bool) (k : K) (l : List Row)
      → kept k ≡ true
      → find key k (filter (λ r. kept (key r)) l) ≡ find key k l
  find-kept kept k [] h = refl
  find-kept kept k (r ∷ l) h = elim (Bool-cases (key r == k)) [
    | inl same ↦
        let names = (test.same_iff (key r) k).0 same in
        rw (← names) (ground (arith, rw (← names) at h, same, names))
    | inr other ↦ ground (arith, find-kept kept k l h)
  ]
