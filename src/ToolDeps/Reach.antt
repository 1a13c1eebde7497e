-- ===== src/ToolDeps/Reach.antt =====
-- What `getPrerequisites` and `getDependents` of src/tool-deps.ts answer.
use paygate_mcp.Base.{
  suc, String, ◌≡◌, ◌↔◌, refl, true, some, List, [], ◌∷◌, ◌++◌, arith, length, length-append,
}
use paygate_mcp.Base.Dict
use paygate_mcp.Base.Dict.{Dict}
use paygate_mcp.Base.Text.{includes}
use paygate_mcp.Base.Names.{IsDistinct, includes-append}
use paygate_mcp.ToolDeps.{
  ToolDep, ToolDependencyGraph, depends_on, dependents_of, total_edges, get_prerequisites,
  get_dependents,
}
use paygate_mcp.ToolDeps.Search.{Reaches, search_finds}

-- All names that some tool depends on.
all_required : Dict ToolDep → List String
all_required [] = []
all_required ((k, d) ∷ deps) = d.depends_on ++ all_required deps

all_tools : Dict ToolDep → List String
all_tools [] = []
all_tools ((k, d) ∷ deps) = d.tool ∷ all_tools deps

length-all_required : (deps : Dict ToolDep) → length (all_required deps) ≡ total_edges deps
unfolding all_required total_edges
length-all_required [] = refl
length-all_required ((k, d) ∷ deps) =
    omega (arith, length-append d.depends_on (all_required deps), length-all_required deps)

length-all_tools : (deps : Dict ToolDep) → length (all_tools deps) ≡ length deps
unfolding all_tools
length-all_tools [] = refl
length-all_tools ((k, d) ∷ deps) = omega (arith, length-all_tools deps)

depends_on-required :
    (deps : Dict ToolDep) (x y : String)
    → includes y (depends_on deps x) ≡ true
    → includes y (all_required deps) ≡ true
unfolding depends_on all_required Dict.get includes
depends_on-required [] x y h = ground arith
depends_on-required ((k, d) ∷ deps) x y h =
    ground (arith, includes-append y d.depends_on (all_required deps), depends_on-required deps x y)

dependents_of-tools :
    (deps : Dict ToolDep) (x y : String)
    → includes y (dependents_of deps x) ≡ true
    → includes y (all_tools deps) ≡ true
unfolding dependents_of all_tools includes
dependents_of-tools [] x y h = ground arith
dependents_of-tools ((k, d) ∷ deps) x y h = ground (arith, dependents_of-tools deps x y)

-- The prerequisites of a tool are found, for any graph, with cycles or without: the loop ends after at
-- most one pass for each edge and one more, and the answer lists exactly the tools that the tool
-- depends on, directly or through others, each of them once.
pub get_prerequisites_finds :
    (tool : String) (g : ToolDependencyGraph)
    → (found : List String) × (get_prerequisites tool g ≡ some found)
      × IsDistinct found
      × ((x : String) → (includes x found ≡ true) ↔ Reaches (depends_on g.deps) tool x)
unfolding get_prerequisites
get_prerequisites_finds tool g =
    search_finds (depends_on g.deps) tool (all_required g.deps) (depends_on-required g.deps)
      (suc (total_edges g.deps)) (omega (arith, length-all_required g.deps))

-- The dependents of a tool are found in the same way: the loop ends after at most one pass for each
-- tool of the graph and one more, and the answer lists exactly the tools that depend on the tool,
-- directly or through others, each of them once.
pub get_dependents_finds :
    (tool : String) (g : ToolDependencyGraph)
    → (found : List String) × (get_dependents tool g ≡ some found)
      × IsDistinct found
      × ((x : String) → (includes x found ≡ true) ↔ Reaches (dependents_of g.deps) tool x)
unfolding get_dependents
get_dependents_finds tool g =
    search_finds (dependents_of g.deps) tool (all_tools g.deps) (dependents_of-tools g.deps)
      (suc (length g.deps)) (omega (arith, length-all_tools g.deps))
