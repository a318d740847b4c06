-- ===== src/Tool/Tasks.antt =====
-- crates/workflow_engine/src/tool.rs: what the tasks of one batch leave, in any order.
use mathlib.Core.Option
use tianshu_rs.Base.{
  ℕ, ◌+◌, ◌≤◌, ◌<◌, String, true, Option, none, some, List, [], ◌∷◌, ◌++◌, string_eq, nat_eq, ◌≡◌,
  ◌≢◌, ◌⊎◌, inl, inr, arith, length, get_elem?, get_elem?-All, eqb, refl, ◌∙◌, Bool-cases,
  Option-cases, Result-cases, All, eqb_iff,
}
use tianshu_rs.Base.HashMap
use tianshu_rs.Base.HashMap.{HashMap, get-insert}
use tianshu_rs.Llm.{ToolCall, ToolResult}
use tianshu_rs.Context.{Serde}
use tianshu_rs.Tool.{
  Tool, ToolRegistry, read_only, get, may_batch, execute_call, batch_of, after_batch, Finished,
  run_once, run_tasks,
}

-- What `ReadOnly` promises: such a tool leaves the state as it is.
abbrev pub AreReadOnly : {Json W : Type 0} → ToolRegistry Json W → Type 0
AreReadOnly {Json} {W} tools =
    (name : String) (tool : Tool Json W)
    → get tools name ≡ some tool
    → tool.safety ≡ read_only
    → (args : Json) (w : W) → (tool.execute args w).1 ≡ w

abbrev pub Has : ℕ → List ℕ → Type 0
Has j [] = ⊥
Has j (i ∷ order) = (i ≡ j) ⊎ Has j order

-- The tasks of a batch all get to run, in some order.
abbrev pub RunsAll : (ℕ → ℕ → List ℕ) → Type 0
RunsAll schedule = (start size j : ℕ) → j < size → Has j (schedule start size)

eq_or_ne : (i j : ℕ) → (i ≡ j) ⊎ (i ≢ j)
eq_or_ne i j = elim (Bool-cases (eqb i j)) [
  | inl e ↦ inl ((eqb_iff i j).0 e)
  | inr e ↦ inr (λ p. ground (arith, eqb_iff i j))
]

module _ {Json W : Type 0} (tools : ToolRegistry Json W) where
  abbrev pub MayBatch : List ToolCall → Type 0
  MayBatch = All (λ c. may_batch tools c ≡ true)

  pub batch_of-MayBatch : (cs : List ToolCall) → MayBatch (batch_of tools cs)
  unfolding batch_of
  batch_of-MayBatch [] = tt
  batch_of-MayBatch (c ∷ cs) = elim (Bool-cases (may_batch tools c)) [
    | inl yes' ↦ rw yes' (yes', batch_of-MayBatch cs)
    | inr other ↦ rw other tt
  ]

  pub batch_of-append-after_batch :
      (cs : List ToolCall) → batch_of tools cs ++ after_batch tools cs ≡ cs
  unfolding batch_of after_batch
  batch_of-append-after_batch [] = refl
  batch_of-append-after_batch (c ∷ cs) = ground (arith, batch_of-append-after_batch cs)

  pub length-after_batch : (cs : List ToolCall) → length (after_batch tools cs) ≤ length cs
  unfolding after_batch
  length-after_batch [] = omega arith
  length-after_batch (c ∷ cs) = ground (arith, length-after_batch cs)

module _ {Json W : Type 0} (serde : Serde Json) (tools : ToolRegistry Json W)
    (law : AreReadOnly tools) where
  pub execute_call_keeps :
      (c : ToolCall) (w : W) → may_batch tools c ≡ true → (execute_call serde tools c w).1 ≡ w
  unfolding execute_call may_batch
  execute_call_keeps c w m = elim (Option-cases (get tools c.name)) [
    | inl e ↦ absurd (ground (arith, e))
    | inr (tool, e) ↦ elim (Result-cases (serde.from_str c.arguments)) [
      | inl (args, p) ↦ ground (arith, law c.name tool e (ground (arith, e)) args w)
      | inr (x, p) ↦ ground (arith, e)
    ]
  ]

  module _ (elapsed : ℕ → ℕ) (start : ℕ) (batch : List ToolCall) (w : W) where
    -- what the task at the position `j` answers
    abbrev pub answer : ℕ → Option ToolCall → Option (ToolResult × ℕ)
    answer j call = Option.map (λ c. ((execute_call serde tools c w).0, elapsed (start + j))) call

    abbrev pub expected : ℕ → Option (ToolResult × ℕ)
    expected j = answer j (get_elem? batch j)

    abbrev pub IsSound : Finished → Type 0
    IsSound done = (j : ℕ) → (HashMap.get done j ≡ none) ⊎ (HashMap.get done j ≡ expected j)

    record Step (j : ℕ) (done : Finished) (s : Finished × W) : Type 0 where
      pub keeps : s.1 ≡ w
      here : HashMap.get s.0 j ≡ expected j
      others : (i : ℕ) → i ≢ j → HashMap.get s.0 i ≡ HashMap.get done i

    run_once-Step :
        (j : ℕ) (done : Finished) (r : Option (ToolResult × ℕ)) (call : Option ToolCall)
        → HashMap.get done j ≡ r
        → get_elem? batch j ≡ call
        → (HashMap.get done j ≡ none) ⊎ (HashMap.get done j ≡ expected j)
        → MayBatch tools batch
        → Step j done (run_once serde tools elapsed start j r call (done, w))
    run_once-Step j done (some r) call g c sound m = record {
      keeps = refl;
      here = ground (arith, sound);
      others = λ i ne. refl;
    }
    run_once-Step j done none none g c sound m = record {
      keeps = refl;
      here = ground arith;
      others = λ i ne. refl;
    }
    run_once-Step j done none (some call) g c sound m = record {
      keeps =
          execute_call_keeps call w
            (get_elem?-All (λ c. may_batch tools c ≡ true) batch j call m c);
      here =
          ground
            (arith, get-insert done j j ((execute_call serde tools call w).0, elapsed (start + j)));
      others = λ i ne.
          ground
            (arith, get-insert done j i ((execute_call serde tools call w).0, elapsed (start + j)));
    }

    Step-expected :
        {j : ℕ} {done : Finished} {s : Finished × W} (i : ℕ)
        → Step j done s
        → HashMap.get done i ≡ expected i
        → HashMap.get s.0 i ≡ expected i
    Step-expected {j} i step e = elim (eq_or_ne i j) [
      | inl same ↦ rw same step.here
      | inr other ↦ step.others i other ∙ e
    ]

    Step-IsSound :
        {j : ℕ} {done : Finished} {s : Finished × W} → Step j done s → IsSound done → IsSound s.0
    Step-IsSound {j} step sound i = elim (eq_or_ne i j) [
      | inl same ↦ inr (rw same step.here)
      | inr other ↦ elim (sound i) [
        | inl none' ↦ inl (step.others i other ∙ none')
        | inr e ↦ inr (step.others i other ∙ e)
      ]
    ]

    pub record Ran (order : List ℕ) (done : Finished) (s : Finished × W) : Type 0 where
      pub keeps : s.1 ≡ w
      pub has :
          (j : ℕ)
          → (Has j order) ⊎ (HashMap.get done j ≡ expected j)
          → HashMap.get s.0 j ≡ expected j

    pub run_tasks-Ran :
        (order : List ℕ) (s : Finished × W)
        → s.1 ≡ w
        → IsSound s.0
        → MayBatch tools batch
        → Ran order s.0 (run_tasks serde tools elapsed start batch order s)
    unfolding run_tasks
    run_tasks-Ran [] s same sound m = record {
      keeps = same;
      has = λ j h. elim h [ inl nowhere ↦ absurd nowhere | inr e ↦ e ];
    }
    run_tasks-Ran (j ∷ order) (done, u) same sound m =
        let once =
          run_once-Step j done (HashMap.get done j) (get_elem? batch j) refl refl (sound j) m in
        let next =
          run_once serde tools elapsed start j (HashMap.get done j) (get_elem? batch j) (done, w) in
        let later = run_tasks-Ran order next once.keeps (Step-IsSound once sound) m in
        rw same (record {
          keeps = later.keeps;
          has = λ i h. later.has i (elim h [
            | inl (inl e) ↦ inr (rw (← e) once.here)
            | inl (inr listed) ↦ inl listed
            | inr e ↦ inr (Step-expected i once e)
          ]);
        })
