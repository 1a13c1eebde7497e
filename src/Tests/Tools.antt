-- ===== src/Tests/Tools.antt =====
-- The results on tool dependencies, on a small graph with a cycle.
use paygate_mcp.Base.{String, ◌≡◌, ◌↔◌, refl, true, false, none, some, List, [], ◌∷◌, or_else}
use paygate_mcp.Base.Dict
use paygate_mcp.Base.Text.{includes, given, text_length}
use paygate_mcp.Base.Names.{IsDistinct}
use paygate_mcp.ToolDeps.{
  ToolDep, ToolDependencyGraph, success, failure, depends_on, register, unregister,
  record_execution, check, get_prerequisites, get_dependents, prune, forget, add_names, search,
  visit, total_edges,
}
use paygate_mcp.ToolDeps.Search.{Reaches}
use paygate_mcp.ToolDeps.Reach.{get_prerequisites_finds}
use paygate_mcp.ToolDeps.Reversed.{Call, registers, unregisters, run, prerequisites_dependents}
use paygate_mcp.ToolDeps.Checks.{IsSatisfied, check-allowed_iff}

abbrev pub blank : ToolDependencyGraph
blank = record {
  config = record {
    enabled = true;
    max_tools = 10;
    max_workflows = 10;
    workflow_expiry_ms = 3600000;
  };
  deps = [];
  workflows = [];
  checks_performed = 0;
  checks_blocked = 0;
  failure_propagations = 0;
  cycles_detected = 0;
}

-- store needs transform, transform needs fetch and store, fetch needs auth.
abbrev pub calls : List Call
calls =
    registers "store" ("transform" ∷ "old" ∷ []) none none 0
    ∷ registers "transform" ("fetch" ∷ "store" ∷ "fetch" ∷ []) none none 0
    ∷ registers "fetch" ("auth" ∷ []) (some false) none 0
    ∷ unregisters "old"
    ∷ []

abbrev graph : ToolDependencyGraph
graph = run calls blank

get_prerequisites_finds_example :
    (found : List String) × (get_prerequisites "store" graph ≡ some found)
    × IsDistinct found
    × ((x : String) → (includes x found ≡ true) ↔ Reaches (depends_on graph.deps) "store" x)
get_prerequisites_finds_example = get_prerequisites_finds "store" graph

prerequisites_dependents_example :
    (before : List String) × (after : List String) × (get_prerequisites "store" graph ≡ some before)
    × (get_dependents "auth" graph ≡ some after)
    × ((includes "auth" before ≡ true) ↔ (includes "store" after ≡ true))
prerequisites_dependents_example = prerequisites_dependents calls blank "store" "auth" refl

abbrev worked : ToolDependencyGraph
worked = record_execution "auth" "wf_1" failure 5 (record_execution "auth" "wf_1" success 3 graph)

worked_enabled : worked.config.enabled ≡ true
unfolding record_execution run register unregister prune forget add_names text_length Dict.get
    Dict.set Dict.delete given includes
worked_enabled = refl

all_before : get_prerequisites "store" graph ≡ some ("transform" ∷ "fetch" ∷ "store" ∷ "auth" ∷ [])
unfolding get_prerequisites search visit depends_on total_edges run register unregister forget
    add_names text_length Dict.get Dict.set Dict.delete includes
all_before = refl

check-allowed_iff_example :
    let records = or_else (Dict.get "wf_1" worked.workflows) [] in
    let answer = (check "fetch" "wf_1" worked).0 in
    ((d : ToolDep)
      → Dict.get "fetch" worked.deps ≡ some d
      → (answer.allowed ≡ true)
        ↔ ((x : String) → includes x d.depends_on ≡ true → IsSatisfied d.hard_dependency records x))
    × (Dict.get "fetch" worked.deps ≡ none → answer.allowed ≡ true)
check-allowed_iff_example = check-allowed_iff "fetch" "wf_1" worked worked_enabled
