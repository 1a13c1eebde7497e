-- ===== src/ToolDeps/Sort/Sorted.antt =====
-- `topologicalSort` of src/tool-deps.ts on the graphs that registrations and removals build.
use text.Mathlib.TextEquality.{eq_iff}
use paygate_mcp.Base.{
  ◌+◌, String, ◌≡◌, refl, sym, subst, inl, inr, true, false, not, Option, some, List, [], ◌∷◌, ◌++◌,
  arith, length, filter, is_nonempty, ◌≢◌, if◌then◌else◌, Bool-cases, length-append,
}
use paygate_mcp.Base.Text.{includes, str_eq_refl, given}
use paygate_mcp.Base.Names.{IsDistinct-snoc, includes-snoc}
use paygate_mcp.ToolDeps.{ToolDep, ToolDependencyGraph}
use paygate_mcp.ToolDeps.Search.{Reaches}
use paygate_mcp.ToolDeps.Reversed.{IsGraph, Call, run, run-IsGraph}
use paygate_mcp.ToolDeps.Sort.{
  selected, tools_of, edges_of, roots, cycles_of, TopologicalOrder, topological_sort,
}
use paygate_mcp.ToolDeps.Sort.Relaxed.{unseen-nil, distinct-fit}
use paygate_mcp.ToolDeps.Sort.Kahn.{IsSorted, kahn-IsSorted}
use paygate_mcp.ToolDeps.Sort.Start.{needs_of, IsEntries, entries-IsGraphOf}
use paygate_mcp.ToolDeps.Sort.Entries.{IsClean, selected-IsEntries, run-IsClean}
use paygate_mcp.ToolDeps.Sort.Degrees.{degrees_of, start-IsPartial}
use paygate_mcp.ToolDeps.Sort.Cycles.{left_out_cycle, cycle_left_out}

left_of : List String → List String → List String
left_of tools order = filter (λ (t : String). not (includes t order)) tools

left_some :
    (tools order : List String)
    → is_nonempty (left_of tools order) ≡ true
    → (t : String) × (includes t tools ≡ true) × (includes t order ≡ false)
unfolding left_of includes
left_some [] order h = absurd (ground arith)
left_some (x ∷ tools) order h = elim (Bool-cases (includes x order)) [
  | inl placed ↦ let (t, i, out) = left_some tools order (ground arith) in (t, ground arith, out)
  | inr out ↦ (x, ground (arith, str_eq_refl x), out)
]

left_none :
    (t : String) (tools order : List String)
    → includes t tools ≡ true
    → includes t order ≡ false
    → is_nonempty (left_of tools order) ≡ true
unfolding left_of includes
left_none t [] order i out = absurd (ground arith)
left_none t (x ∷ tools) order i out = ground (arith, eq_iff x t, left_none t tools order)

-- The cycles are reported exactly where a tool is left out.
cycles_of_none :
    (needs : String → List String) (tools order : List String) (t : String)
    → IsSorted needs tools order
    → cycles_of tools order ≡ []
    → includes t tools ≡ true
    → includes t order ≡ true
unfolding left_of
cycles_of_none needs tools order t s e i = elim (Bool-cases (includes t order)) [
  | inl placed ↦ placed
  | inr out ↦ absurd (
      ground (
        arith,
        left_none t tools order i out,
        distinct-fit [] (order ++ t ∷ []) tools (IsDistinct-snoc t order s.once out)
            (λ x j. ground (arith, includes-snoc x t order, eq_iff t x, s.known x)),
        unseen-nil tools,
        length-append order (t ∷ []),
      ))
]

cycles_of_some :
    (tools order : List String)
    → cycles_of tools order ≢ []
    → (t : String) × (includes t tools ≡ true) × (includes t order ≡ false)
unfolding left_of
cycles_of_some tools order n =
    left_some tools order (elim (Bool-cases (is_nonempty (left_of tools order))) [
      | inl found ↦ found
      | inr empty ↦ absurd (n (ground arith))
    ])

-- After any registrations and removals from an empty graph, the sort of all tools, or of those of a
-- group and of what they name, ends with an answer. Its order has each tool at most once, each after
-- all the tools that it depends on, and only tools of the graph; a tool that is left out depends on
-- another that is left out, and the tools on a cycle are left out. A cycle is reported exactly where the graph has
-- one, and where none is reported every tool is in the order; the graph stays as it was, but for the count of
-- the sorts that found a cycle.
pub topological_sort_sorts :
    (cs : List Call) (g : ToolDependencyGraph) (group : Option String)
    → g.deps ≡ []
    → let g' = run cs g in
      let ds = selected (given group) g'.deps in
      (result : TopologicalOrder) × (topological_sort group g'
        ≡ some (
          result,
          if is_nonempty result.cycles
              then record g' { cycles_detected = g'.cycles_detected + 1 }
              else g',
        ))
      × IsSorted (needs_of ds) (tools_of ds []) result.order
      × ((t : String) → Reaches (needs_of ds) t t → includes t result.order ≡ false)
      × (result.cycles ≢ [] → (t : String) × Reaches (needs_of ds) t t)
      × (result.cycles ≡ [] → (t : String) → ¬ Reaches (needs_of ds) t t)
      × (result.cycles ≡ []
          → (t : String) → includes t (tools_of ds []) ≡ true
          → includes t result.order ≡ true)
unfolding topological_sort
topological_sort_sorts cs g group empty =
    let (order, depth, done, s) =
      kahn-IsSorted (needs_of ds) (edges_of ds) (tools_of ds []) (length (tools_of ds []))
        (roots (degrees_of ds)) (degrees_of ds) [] 0 (length (roots (degrees_of ds))) 0
        (entries-IsGraphOf ds entries) (start-IsPartial ds entries) (omega arith) in
    let graph = entries-IsGraphOf ds entries in
    (
      record { order = order; cycles = cycles_of (tools_of ds []) order; depth = depth },
      rw done refl,
      s,
      λ t r. (cycle_left_out (needs_of ds) (edges_of ds) (tools_of ds []) order graph s t r).1,
      λ n.
          let (t, i, out) = cycles_of_some (tools_of ds []) order n in
          left_out_cycle (needs_of ds) (edges_of ds) (tools_of ds []) order graph s t i out,
      λ e t r.
          let (i, out) =
            cycle_left_out (needs_of ds) (edges_of ds) (tools_of ds []) order graph s t r in
          ground (arith, cycles_of_none (needs_of ds) (tools_of ds []) order t s e i),
      λ e t i. cycles_of_none (needs_of ds) (tools_of ds []) order t s e i,
    )
  where
    ds : List ToolDep
    ds = selected (given group) (run cs g).deps

    entries : IsEntries ds
    entries =
        selected-IsEntries (given group) (run cs g).deps
          (run-IsGraph cs g (subst IsGraph (sym empty) tt))
          (run-IsClean cs g (subst IsClean (sym empty) tt))
