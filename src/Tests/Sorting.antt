-- ===== src/Tests/Sorting.antt =====
-- The sort of tools, on the small graph with a cycle and on a part of it without one.
use paygate_mcp.Base.{
  String, ◌≡◌, ◌≢◌, refl, true, false, Option, none, some, List, [], ◌∷◌, ◌+◌, is_nonempty,
  if◌then◌else◌,
}
use paygate_mcp.Base.Dict
use paygate_mcp.Base.Text.{includes, given, text_length}
use paygate_mcp.ToolDeps.{register, unregister, forget, add_names}
use paygate_mcp.ToolDeps.Search.{Reaches}
use paygate_mcp.ToolDeps.Reversed.{Call, registers, run}
use paygate_mcp.ToolDeps.Sort.{
  selected, tools_of, TopologicalOrder, topological_sort, push_edges, edges_of, zero_degrees,
  raise_degree, raise_degrees, roots, relax, kahn,
}
use paygate_mcp.ToolDeps.Sort.Kahn.{IsSorted}
use paygate_mcp.ToolDeps.Sort.Start.{needs_of}
use paygate_mcp.ToolDeps.Sort.Sorted.{topological_sort_sorts}
use paygate_mcp.Tests.Tools.{blank, calls}

topological_sort_sorts_example :
    let g' = run calls blank in
    let ds = selected (given none) g'.deps in
    (result : TopologicalOrder) × (topological_sort none g'
      ≡ some (
        result,
        if is_nonempty result.cycles
            then record g' { cycles_detected = g'.cycles_detected + 1 }
            else g',
      ))
    × IsSorted (needs_of ds) (tools_of ds []) result.order
    × ((t : String) → Reaches (needs_of ds) t t → includes t result.order ≡ false)
    × (result.cycles ≢ [] → (t : String) × Reaches (needs_of ds) t t)
    × (result.cycles ≡ [] → (t : String) → ¬ Reaches (needs_of ds) t t)
    × (result.cycles ≡ []
        → (t : String) → includes t (tools_of ds []) ≡ true
        → includes t result.order ≡ true)
topological_sort_sorts_example = topological_sort_sorts calls blank none refl

abbrev order_in : Option String → List Call → Option (List String × List (List String))
order_in group cs = elim (topological_sort group (run cs blank)) [
  | none ↦ none
  | some (result, g) ↦ some (result.order, result.cycles)
]

left_out : order_in none calls ≡ some ("auth" ∷ "fetch" ∷ [], ("store" ∷ "transform" ∷ []) ∷ [])
unfolding topological_sort selected given run register unregister forget add_names text_length
    Dict.get Dict.set Dict.delete includes tools_of push_edges edges_of zero_degrees raise_degree
    raise_degrees roots relax kahn
left_out = refl

abbrev chain : List Call
chain =
    registers "store" ("transform" ∷ "fetch" ∷ []) none (some "etl") 0
    ∷ registers "transform" ("fetch" ∷ []) none (some "etl") 0
    ∷ registers "fetch" ("auth" ∷ []) none none 0
    ∷ []

in_order : order_in none chain ≡ some ("auth" ∷ "fetch" ∷ "transform" ∷ "store" ∷ [], [])
unfolding topological_sort selected given run register unregister forget add_names text_length
    Dict.get Dict.set Dict.delete includes tools_of push_edges edges_of zero_degrees raise_degree
    raise_degrees roots relax kahn
in_order = refl

in_order_of_group : order_in (some "etl") chain ≡ some ("fetch" ∷ "transform" ∷ "store" ∷ [], [])
unfolding topological_sort selected given run register unregister forget add_names text_length
    Dict.get Dict.set Dict.delete includes tools_of push_edges edges_of zero_degrees raise_degree
    raise_degrees roots relax kahn
in_order_of_group = refl
