-- ===== src/Engine/Once.antt =====
-- crates/workflow_engine/src/engine.rs: the keys that phase 4 goes over.
use tianshu_rs.Base.{
  String, Bool, true, false, not, ◌&&◌, ◌||◌, Option, none, some, ◌==◌, refl, ap, ◌∙◌,
  if◌then◌else◌, List, [], ◌∷◌, ◌++◌, ◌≡◌, ◌≢◌, sym, arith, string_eq, All-append, Bool-cases, inl,
  inr,
}
use tianshu_rs.Base.HashMap.{HashMap}
use tianshu_rs.Base.HashMap
use tianshu_rs.Case.{Case, ExecutionState, running, waiting, finished, is_active, state_eq}
use tianshu_rs.Engine.{Partition, add_key, partition, contains, push_new}
use tianshu_rs.Engine.Tick.{ready_keys}
use tianshu_rs.Engine.Untouched.{Avoids, IsMap, partition_absent}

-- no key stands twice in the list
abbrev pub AreDistinct : List String → Type 0
AreDistinct [] = Unit
AreDistinct (k ∷ keys) = Avoids k keys × AreDistinct keys

contains-false : (keys : List String) (k : String) → contains keys k ≡ false → Avoids k keys
unfolding contains
contains-false [] k h = tt
contains-false (j ∷ keys) k h = ground (arith, string_eq.same_iff j k, contains-false keys k)

append-AreDistinct :
    (keys : List String) (k : String)
    → Avoids k keys
    → AreDistinct keys
    → AreDistinct (keys ++ k ∷ [])
append-AreDistinct [] k a d = (tt, tt)
append-AreDistinct (j ∷ keys) k a d = (
  All-append (λ i. i ≢ j) keys (k ∷ []) d.0 (λ e. a.0 (sym e), tt),
  append-AreDistinct keys k a.1 d.1,
)

push_new-AreDistinct :
    (keys : List String) (k : String) → AreDistinct keys → AreDistinct (push_new keys k)
push_new-AreDistinct keys k d = elim (Bool-cases (contains keys k)) [
  | inl there ↦ rw there d
  | inr fresh ↦ rw fresh (append-AreDistinct keys k (contains-false keys k fresh) d)
]

ready_keys-AreDistinct :
    (ready woken : List String) → AreDistinct ready → AreDistinct (ready_keys ready woken)
unfolding ready_keys
ready_keys-AreDistinct ready [] d = d
ready_keys-AreDistinct ready (k ∷ woken) d =
    ready_keys-AreDistinct (push_new ready k) woken (push_new-AreDistinct ready k d)

partition-AreDistinct :
    {Json : Type 0} (m : HashMap String (Case Json))
    → IsMap m
    → AreDistinct (partition m).running_keys
unfolding partition
partition-AreDistinct [] u = tt
partition-AreDistinct ((k, c) ∷ m) u =
    ground (arith, partition-AreDistinct m u.1, partition_absent k m u.0)

-- In a dictionary with one entry for a key, the keys that phase 4 goes over, the running cases and
-- the woken ones that are not among them, have no key twice, also where a case is woken twice.
pub ready_once :
    {Json : Type 0} (dict : HashMap String (Case Json)) (woken : List String)
    → IsMap dict
    → AreDistinct (ready_keys (partition dict).running_keys woken)
ready_once dict woken u =
    ready_keys-AreDistinct (partition dict).running_keys woken (partition-AreDistinct dict u)

contains-append :
    (keys : List String) (j k : String) → contains (keys ++ j ∷ []) k ≡ (contains keys k || j == k)
unfolding contains
contains-append [] j k = ground arith
contains-append (i ∷ keys) j k = ground (arith, contains-append keys j k)

contains-push_new :
    (keys : List String) (j k : String) → contains (push_new keys j) k ≡ (contains keys k || j == k)
contains-push_new keys j k = elim (Bool-cases (contains keys j)) [
  | inl there ↦ elim (Bool-cases (j == k)) [
    | inl same ↦
        let names : j ≡ k = (string_eq.same_iff j k).0 same in
        rw there (rw (same, rw names at there) refl)
    | inr other ↦ rw (there, other) (ground arith)
  ]
  | inr fresh ↦ rw fresh (contains-append keys j k)
]

contains-ready_keys :
    (ready woken : List String) (k : String)
    → contains (ready_keys ready woken) k ≡ (contains ready k || contains woken k)
unfolding ready_keys contains
contains-ready_keys ready [] k = ground arith
contains-ready_keys ready (j ∷ woken) k =
    ground (arith, contains-ready_keys (push_new ready j) woken k, contains-push_new ready j k)

-- whether a case is found, is active and is running
abbrev pub is_found_running : {Json : Type 0} → Option (Case Json) → Bool
is_found_running none = false
is_found_running (some c) = is_active c && c.execution_state == running

pub contains-Avoids : (keys : List String) (k : String) → Avoids k keys → contains keys k ≡ false
unfolding contains
contains-Avoids [] k a = refl
contains-Avoids (j ∷ keys) k a = ground (arith, string_eq.same_iff j k, contains-Avoids keys k a.1)

contains-add_key :
    (active : Bool) (s : ExecutionState) (j k : String) (p : Partition)
    → contains (if not active then p else add_key s j p).running_keys k
      ≡ ((active && s == running && j == k) || contains p.running_keys k)
unfolding contains
contains-add_key false s j k p = refl
contains-add_key true running j k p = ground arith
contains-add_key true waiting j k p = refl
contains-add_key true finished j k p = refl

module _ {Json : Type 0} where
  contains-partition :
      (k : String) (m : HashMap String (Case Json))
      → IsMap m
      → contains (partition m).running_keys k ≡ is_found_running (HashMap.get m k)
  unfolding partition contains HashMap.get
  contains-partition k [] u = refl
  contains-partition k ((j, c) ∷ m) u =
      let here = contains-add_key (is_active c) c.execution_state j k (partition m) in
      elim (Bool-cases (j == k)) [
        | inl same ↦
            let names : j ≡ k = (string_eq.same_iff j k).0 same in
            let apart = contains-Avoids (partition m).running_keys j (partition_absent j m u.0).0 in
            let none_other = rw names at apart in here ∙ rw (same, none_other) (ground arith)
        | inr other ↦ here ∙ rw other (ground (arith, contains-partition k m u.1))
      ]

  -- In a dictionary with one entry for a key, the keys that phase 4 goes over are those of the cases
  -- that are running and active, with those that were woken, and none of them stands twice.
  pub ready_exactly :
      (dict : HashMap String (Case Json)) (woken : List String)
      → IsMap dict
      → AreDistinct (ready_keys (partition dict).running_keys woken)
        × ((k : String)
            → contains (ready_keys (partition dict).running_keys woken) k
              ≡ (is_found_running (HashMap.get dict k) || contains woken k))
  ready_exactly dict woken u = (
    ready_once dict woken u,
    λ k.
        contains-ready_keys (partition dict).running_keys woken k
        ∙ ap (λ b. b || contains woken k) (contains-partition k dict u),
  )
