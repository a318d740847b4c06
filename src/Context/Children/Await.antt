-- ===== src/Context/Children/Await.antt =====
-- crates/workflow_engine/src/context.rs: `await_children` is done exactly when no child is active.
use tianshu_rs.Base.{
  ℕ, List, [], ◌∷◌, ◌++◌, ok, ◌≡◌, arith, string_eq, if◌then◌else◌, ap, ◌+◌, ltb, sym, ◌∙◌,
}
use native.Mathlib.Nat.{add-zero}
use mathlib.Core.Path.{ap₂}
use mathlib.Core.List.{append_assoc, append-nil}
use tianshu_rs.Spawn.{ChildHandle, ChildStatus, ChildrenResult, all_done, pending}
use tianshu_rs.Store.{CaseStore}
use tianshu_rs.Context.{WorkflowContext}
use tianshu_rs.Context.Children.{child_status, check_children, await_children}

module _ {Json : Type 0} where
  -- how many of the statuses are `Running` or `Waiting`
  abbrev pub active : List (ChildHandle × ChildStatus Json) → ℕ
  active [] = 0
  active ((h, ChildStatus.running) ∷ r) = active r + 1
  active ((h, ChildStatus.waiting) ∷ r) = active r + 1
  active ((h, ChildStatus.finished t d x) ∷ r) = active r
  active ((h, ChildStatus.failed x) ∷ r) = active r

  abbrev verdict : ℕ → List (ChildHandle × ChildStatus Json) → ChildrenResult Json
  verdict n r = if ltb 0 n then pending n else all_done r

module _ {Json Float C S : Type 0} (cases : CaseStore Json C)
    (c : WorkflowContext Json Float C S) where
  -- each handle with the status that the store gives it
  pub data Statuses : List ChildHandle → List (ChildHandle × ChildStatus Json) → Type 0 where
    nil : Statuses [] []
    cons :
        {h : ChildHandle} {hs : List ChildHandle} {s : ChildStatus Json}
        {r : List (ChildHandle × ChildStatus Json)}
        → child_status cases h c ≡ ok s
        → Statuses hs r
        → Statuses (h ∷ hs) ((h, s) ∷ r)

  check_children-Statuses :
      {hs : List ChildHandle} {r : List (ChildHandle × ChildStatus Json)}
      (before : List (ChildHandle × ChildStatus Json)) (n : ℕ)
      → Statuses hs r
      → check_children cases hs before n c ≡ ok (verdict (n + active r) (before ++ r))
  unfolding check_children
  check_children-Statuses before n nil =
      ap ok (ap₂ verdict (sym (add-zero n)) (sym (append-nil before)))
  check_children-Statuses before n (cons {h = h} {s = ChildStatus.running} {r = r} e rest) =
      rw (e, check_children)
        (check_children-Statuses (before ++ (h, ChildStatus.running) ∷ []) (n + 1) rest
          ∙ ap ok (ap₂ verdict (omega arith) (append_assoc before _ r)))
  check_children-Statuses before n (cons {h = h} {s = ChildStatus.waiting} {r = r} e rest) =
      rw (e, check_children)
        (check_children-Statuses (before ++ (h, ChildStatus.waiting) ∷ []) (n + 1) rest
          ∙ ap ok (ap₂ verdict (omega arith) (append_assoc before _ r)))
  check_children-Statuses before n (cons {h = h} {s = s} {r = r} e rest) =
      rw (e, check_children)
        (check_children-Statuses (before ++ (h, s) ∷ []) n rest
          ∙ ap ok (ap (verdict (n + active r)) (append_assoc before _ r)))

  -- Where the store answers for every handle, waiting for the children gives the number of the
  -- children that are running or waiting, if there is one, and otherwise every handle with its
  -- status, in the order of the handles.
  pub await_children_lem :
      {hs : List ChildHandle} {r : List (ChildHandle × ChildStatus Json)}
      → Statuses hs r
      → await_children cases hs c ≡ ok (if ltb 0 (active r) then pending (active r) else all_done r)
  unfolding await_children
  await_children_lem {hs} {r} s =
      check_children-Statuses [] 0 s ∙ ap ok (ap (λ k. verdict k r) (omega arith))
