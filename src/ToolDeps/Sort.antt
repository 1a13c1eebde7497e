-- ===== src/ToolDeps/Sort.antt =====
-- src/tool-deps.ts: `topologicalSort`, which orders the tools of the graph, or of a group in it, by
-- Kahn's algorithm.
pub mod Relaxed
pub mod Kahn
pub mod Start
pub mod Degrees
pub mod Cycles
pub mod Entries
pub mod Sorted
use paygate_mcp.Base.{
  ℕ, zero, suc, ◌+◌, ◌-◌, String, Bool, true, false, not, Option, none, some, List, [], ◌∷◌, ◌++◌,
  length, is_nonempty, filter, ltb, ◌==◌, or_else, if◌then◌else◌,
}
use paygate_mcp.Base.Dict
use paygate_mcp.Base.Dict.{Dict}
use paygate_mcp.Base.Text.{str_eq, includes, given}
use paygate_mcp.ToolDeps.{ToolDep, ToolDependencyGraph, add_names}

abbrev pub in_group : Option String → ToolDep → Bool
in_group none d = true
in_group (some group) d = elim d.group [ none ↦ false | some own ↦ str_eq own group ]

-- The entries that a loop over the graph does not skip.
unfoldable pub selected : Option String → Dict ToolDep → List ToolDep
selected group [] = []
selected group ((k, d) ∷ deps) =
    if in_group group d then d ∷ selected group deps else selected group deps

-- The set of tools: each entry's own, and those that it depends on.
unfoldable pub tools_of : List ToolDep → List String → List String
tools_of [] found = found
tools_of (d ∷ ds) found = tools_of ds (add_names (d.tool ∷ d.depends_on) found)

-- `tool` for each time that `from` is named.
unfoldable pub push_edges : String → String → List String → List String → List String
push_edges from tool [] rest = rest
push_edges from tool (x ∷ xs) rest =
    if str_eq x from then tool ∷ push_edges from tool xs rest else push_edges from tool xs rest

-- The tools that come after `from`, in the order of the entries.
unfoldable pub edges_of : List ToolDep → String → List String
edges_of [] from = []
edges_of (d ∷ ds) from = push_edges from d.tool d.depends_on (edges_of ds from)

unfoldable pub zero_degrees : List String → Dict ℕ → Dict ℕ
zero_degrees [] degrees = degrees
zero_degrees (t ∷ ts) degrees = zero_degrees ts (Dict.set t 0 degrees)

-- One more for each tool that `tool` depends on.
unfoldable pub raise_degree : String → List String → Dict ℕ → Dict ℕ
raise_degree tool [] degrees = degrees
raise_degree tool (x ∷ xs) degrees =
    raise_degree tool xs (Dict.set tool (or_else (Dict.get tool degrees) 0 + 1) degrees)

unfoldable pub raise_degrees : List ToolDep → Dict ℕ → Dict ℕ
raise_degrees [] degrees = degrees
raise_degrees (d ∷ ds) degrees = raise_degrees ds (raise_degree d.tool d.depends_on degrees)

-- The tools of degree 0.
unfoldable pub roots : Dict ℕ → List String
roots [] = []
roots ((t, n) ∷ m) = if n == 0 then t ∷ roots m else roots m

-- The loop over the tools that come after one. A degree that falls below 0 in the source stays at 0
-- here; neither is 1 ever again, which is what is asked of it.
unfoldable pub relax : List String → Dict ℕ → List String → Dict ℕ × List String
relax [] degrees queue = (degrees, queue)
relax (next ∷ rest) degrees queue =
    let degree = or_else (Dict.get next degrees) 1 in
    relax rest (Dict.set next (degree - 1) degrees)
      (if degree == 1 then queue ++ next ∷ [] else queue)

-- The loop `while (queue.length > 0)`, with fuel. It gives the order and the depth.
unfoldable pub kahn :
    (String → List String)
    → ℕ
    → List String
    → Dict ℕ
    → List String
    → ℕ
    → ℕ
    → ℕ
    → Option (List String × ℕ)
kahn edges fuel [] degrees order processed level_size depth = some (order, depth)
kahn edges zero (tool ∷ queue) degrees order processed level_size depth = none
kahn edges (suc fuel) (tool ∷ queue) degrees order processed level_size depth =
    let (degrees', queue') = relax (edges tool) degrees queue in
    let full = processed + 1 == level_size in
    kahn edges fuel queue' degrees' (order ++ tool ∷ []) (if full then 0 else processed + 1)
      (if full then length queue' else level_size) (if processed == 0 then depth + 1 else depth)

pub record TopologicalOrder : Type 0 where
  pub order : List String
  pub cycles : List (List String)
  pub depth : ℕ

abbrev pub cycles_of : List String → List String → List (List String)
cycles_of tools order =
    let left = filter (λ (t : String). not (includes t order)) tools in
    if ltb (length order) (length tools) then (if is_nonempty left then left ∷ [] else []) else []

abbrev pub sorted_with :
    List String
    → ToolDependencyGraph
    → Option (List String × ℕ)
    → Option (TopologicalOrder × ToolDependencyGraph)
sorted_with tools g none = none
sorted_with tools g (some (order, depth)) =
    let cycles = cycles_of tools order in
    some (
      record { order = order; cycles = cycles; depth = depth },
      if is_nonempty cycles then record g { cycles_detected = g.cycles_detected + 1 } else g,
    )

-- `none` only where the fuel does not last: a round for each tool.
unfoldable pub topological_sort :
    Option String → ToolDependencyGraph → Option (TopologicalOrder × ToolDependencyGraph)
topological_sort group g =
    let ds = selected (given group) g.deps in
    let tools = tools_of ds [] in
    let degrees = raise_degrees ds (zero_degrees tools []) in
    let queue = roots degrees in
    sorted_with tools g (kahn (edges_of ds) (length tools) queue degrees [] 0 (length queue) 0)
