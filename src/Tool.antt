-- ===== src/Tool.antt =====
-- crates/workflow_engine/src/tool.rs: tools, and the execution of one call and of many. A tool may
-- change the state `W` of what it calls. The duration of a call is given by its position. The
-- tasks of a batch run to their end one after the other, in the order that `schedule` gives for
-- the start and the size of the batch; `none` is a batch that never ends.
pub mod Tasks
pub mod Order
pub mod Loop
mod Tests
use mathlib.Core.Option
use tianshu_rs.Base.{
  ℕ, zero, suc, ◌+◌, String, Bool, true, false, Option, none, some, List, [], ◌∷◌, ◌++◌, map,
  Result, ok, err, Error, Eq, ◌==◌, string_eq, nat_eq, if◌then◌else◌, ◌≡◌, ◌↔◌, arith, format,
  length, get_elem?, eqb,
}
use tianshu_rs.Base.HashMap
use tianshu_rs.Base.HashMap.{HashMap}
use tianshu_rs.Llm.{LlmTool, ToolCall, ToolResult}
use tianshu_rs.Context.{Serde}

pub data ToolSafety : Type 0 where
  read_only exclusive : ToolSafety

pub record Tool (Json W : Type 0) : Type 0 where
  pub name : String
  pub description : String
  pub safety : ToolSafety
  pub parameters_schema : Json
  pub execute : Json → W → Result String × W

abbrev pub ToolRegistry : Type 0 → Type 0 → Type 0
ToolRegistry Json W = HashMap String (Tool Json W)

abbrev pub is_read_only : ToolSafety → Bool
is_read_only read_only = true
is_read_only exclusive = false

abbrev result_of : ToolCall → Result String → ToolResult
result_of call (ok content) = record { call_id = call.id; content = content; is_error = false }
result_of call (err e) = record { call_id = call.id; content = e.message; is_error = true }

abbrev pub Finished : Type 0
Finished = HashMap ℕ (ToolResult × ℕ)

-- the results are awaited in the order of the calls
abbrev pub await_next :
    Option (ToolResult × ℕ) → Option (List (ToolResult × ℕ)) → Option (List (ToolResult × ℕ))
await_next none later = none
await_next (some r) none = none
await_next (some r) (some rs) = some (r ∷ rs)

unfoldable pub await_from : ℕ → List ToolCall → Finished → Option (List (ToolResult × ℕ))
await_from j [] done = some []
await_from j (c ∷ batch) done = await_next (HashMap.get done j) (await_from (j + 1) batch done)

abbrev pub then_with :
    {W : Type 0}
    → List (ToolResult × ℕ)
    → Option (List (ToolResult × ℕ) × W)
    → Option (List (ToolResult × ℕ) × W)
then_with first later = Option.map (λ r. (first ++ r.0, r.1)) later

module _ {Json W : Type 0} where
  unfoldable pub register : ToolRegistry Json W → Tool Json W → ToolRegistry Json W
  register tools tool = HashMap.insert tools tool.name tool

  unfoldable pub get : ToolRegistry Json W → String → Option (Tool Json W)
  get tools name = HashMap.get tools name

  unfoldable pub to_llm_tools : ToolRegistry Json W → List (LlmTool Json)
  to_llm_tools tools =
      map
        (λ (t : Tool Json W). record {
          name = t.name;
          description = t.description;
          parameters = t.parameters_schema;
        })
        (HashMap.values tools)

  -- a call of an unknown tool counts as exclusive
  abbrev safety_of : Option (Tool Json W) → ToolSafety
  safety_of none = exclusive
  safety_of (some tool) = tool.safety

  unfoldable pub may_batch : ToolRegistry Json W → ToolCall → Bool
  unfolding get
  may_batch tools call = is_read_only (safety_of (get tools call.name))

  abbrev run_with : ToolCall → Tool Json W → Result Json → W → ToolResult × W
  run_with call tool (err e) w = (
    record {
      call_id = call.id;
      content = format ("failed to parse arguments: " ∷ e.message ∷ []);
      is_error = true;
    },
    w,
  )
  run_with call tool (ok args) w = let (r, w') = tool.execute args w in (result_of call r, w')

  abbrev run_found : Serde Json → ToolCall → Option (Tool Json W) → W → ToolResult × W
  run_found serde call none w = (
    record {
      call_id = call.id;
      content = format ("unknown tool: " ∷ call.name ∷ []);
      is_error = true;
    },
    w,
  )
  run_found serde call (some tool) w = run_with call tool (serde.from_str call.arguments) w

module _ {Json W : Type 0} (tools : ToolRegistry Json W) where
  -- the calls up to the first that is exclusive, and the others
  unfoldable pub batch_of : List ToolCall → List ToolCall
  batch_of [] = []
  batch_of (c ∷ cs) = let rest = batch_of cs in if may_batch tools c then c ∷ rest else []

  unfoldable pub after_batch : List ToolCall → List ToolCall
  after_batch [] = []
  after_batch (c ∷ cs) = if may_batch tools c then after_batch cs else c ∷ cs

module _ {Json W : Type 0} (serde : Serde Json) (tools : ToolRegistry Json W) where
  unfoldable pub execute_call : ToolCall → W → ToolResult × W
  unfolding get
  execute_call call w = run_found serde call (get tools call.name) w

module _ {Json W : Type 0} (serde : Serde Json) (tools : ToolRegistry Json W)
    (elapsed : ℕ → ℕ) where
  -- One task: the call at the position `j` of the batch that starts at `start`. A task runs once.
  abbrev run_once :
      (start j : ℕ) → Option (ToolResult × ℕ) → Option ToolCall → Finished × W → Finished × W
  run_once start j (some done) call s = s
  run_once start j none none s = s
  run_once start j none (some call) (done, w) =
      let (r, w') = execute_call serde tools call w in
      (HashMap.insert done j (r, elapsed (start + j)), w')

  unfoldable pub run_tasks :
      (start : ℕ) → List ToolCall → (order : List ℕ) → Finished × W → Finished × W
  run_tasks start batch [] s = s
  run_tasks start batch (j ∷ order) s =
      run_tasks start batch order (run_once start j (HashMap.get s.0 j) (get_elem? batch j) s)

  -- no task gets one of the permits where there is none
  unfoldable pub run_batch :
      (max_concurrency : ℕ) (schedule : ℕ → ℕ → List ℕ) (start : ℕ)
      → List ToolCall
      → W
      → Option (List (ToolResult × ℕ) × W)
  unfolding run_tasks await_from
  run_batch max_concurrency schedule start batch w =
      let order = if eqb max_concurrency 0 then [] else schedule start (length batch) in
      let (done, w') = run_tasks start batch order ([], w) in
      Option.map (λ results. (results, w')) (await_from 0 batch done)

  -- The loop, at the call `i`. Each round takes a call or more, so as many rounds as there are
  -- calls are enough.
  unfoldable pub run_calls :
      (fuel max_concurrency : ℕ) (schedule : ℕ → ℕ → List ℕ) (i : ℕ)
      → List ToolCall
      → W
      → Option (List (ToolResult × ℕ) × W)
  unfolding run_batch
  run_calls fuel k schedule i [] w = some ([], w)
  run_calls zero k schedule i (c ∷ cs) w = none
  run_calls (suc fuel) k schedule i (c ∷ cs) w = elim (may_batch tools c) [
    | false ↦
        let (r, w') = execute_call serde tools c w in
        then_with ((r, elapsed i) ∷ []) (run_calls fuel k schedule (i + 1) cs w')
    | true ↦
        let batch = c ∷ batch_of tools cs in
        elim (run_batch k schedule i batch w) [
          | none ↦ none
          | some (results, w') ↦
              then_with results
                (run_calls fuel k schedule (i + length batch) (after_batch tools cs) w')
        ]
  ]

  unfoldable pub execute_with_concurrency :
      (max_concurrency : ℕ) (schedule : ℕ → ℕ → List ℕ)
      → List ToolCall
      → W
      → Option (List (ToolResult × ℕ) × W)
  unfolding run_calls
  execute_with_concurrency k schedule calls w = run_calls (length calls) k schedule 0 calls w

  -- the calls one after the other
  unfoldable pub one_by_one : ℕ → List ToolCall → W → List (ToolResult × ℕ) × W
  one_by_one i [] w = ([], w)
  one_by_one i (c ∷ cs) w =
      let (r, w') = execute_call serde tools c w in
      let (rs, w'') = one_by_one (i + 1) cs w' in ((r, elapsed i) ∷ rs, w'')
