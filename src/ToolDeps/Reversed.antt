-- ===== src/ToolDeps/Reversed.antt =====
-- Prerequisites and dependents of src/tool-deps.ts are the two directions of one relation.
use text.Mathlib.TextEquality.{eq_iff}
use paygate_mcp.Base.{
  String, ◌≡◌, ◌↔◌, refl, subst, sym, Bool, true, false, not, ◌||◌, ◌&&◌, Option, some, none, List,
  [], ◌∷◌, arith, Bool-cases, inl, inr, ℕ, leb, ltb, ◌==◌, length, or_else,
}
use paygate_mcp.Base.Dict
use paygate_mcp.Base.Dict.{Dict, IsMap, get-set, get-delete}
use paygate_mcp.Base.Text.{includes, str_eq, text_length}
use paygate_mcp.ToolDeps.{
  ToolDep, ToolDependencyGraph, depends_on, dependents_of, get_prerequisites, get_dependents,
  register, unregister, forget, add_names, is_registered,
}
use paygate_mcp.ToolDeps.Search.{Reaches, direct, beyond}
use paygate_mcp.ToolDeps.Reach.{get_prerequisites_finds, get_dependents_finds}

-- Each entry stands under its own tool, once.
abbrev pub IsGraph : Dict ToolDep → Type 0
IsGraph [] = Unit {0}
IsGraph ((k, d) ∷ deps) = (d.tool ≡ k) × (Dict.get k deps ≡ none) × IsGraph deps

no_dependent :
    (deps : Dict ToolDep) (x y : String)
    → IsGraph deps
    → Dict.get x deps ≡ none
    → includes x (dependents_of deps y) ≡ false
unfolding Dict.get dependents_of includes
no_dependent [] x y u n = ground arith
no_dependent ((k, d) ∷ deps) x y u n = ground (arith, eq_iff k x, no_dependent deps x y u.2)

edge_iff :
    (deps : Dict ToolDep) (x y : String)
    → IsGraph deps
    → includes y (depends_on deps x) ≡ includes x (dependents_of deps y)
unfolding depends_on dependents_of Dict.get includes
edge_iff [] x y u = refl
edge_iff ((k, d) ∷ deps) x y u =
    ground (arith, eq_iff k x, edge_iff deps x y u.2, no_dependent deps x y u.2)

module _ (next back : String → List String)
    (edge : (x y : String) → includes y (next x) ≡ true → includes x (back y) ≡ true) where
  prepend : (x y z : String) → includes y (back x) ≡ true → Reaches back y z → Reaches back x z
  prepend x y z h (direct i) = beyond (direct h) i
  prepend x y z h (beyond {y = w} r i) = beyond (prepend x y w h r) i

  reversed : (x y : String) → Reaches next x y → Reaches back y x
  reversed x y (direct h) = direct (edge x y h)
  reversed x y (beyond {y = w} r h) = prepend y w x (edge w y h) (reversed x w r)

-- Registering and unregistering keep the entries under their tools.
set-IsGraph : (d : ToolDep) (deps : Dict ToolDep) → IsGraph deps → IsGraph (Dict.set d.tool d deps)
unfolding Dict.set Dict.get
set-IsGraph d [] u = (refl, refl, tt)
set-IsGraph d ((k, e) ∷ deps) u =
    ground
      (arith, eq_iff k d.tool, eq_iff d.tool k, get-set d.tool k d deps, set-IsGraph d deps u.2)

get-forget :
    (tool k : String) (deps : Dict ToolDep)
    → Dict.get k deps ≡ none
    → Dict.get k (forget tool deps) ≡ none
unfolding forget Dict.get
get-forget tool k [] n = refl
get-forget tool k ((j, d) ∷ deps) n = ground (arith, get-forget tool k deps)

forget-IsGraph : (tool : String) (deps : Dict ToolDep) → IsGraph deps → IsGraph (forget tool deps)
unfolding forget
forget-IsGraph tool [] u = tt
forget-IsGraph tool ((k, d) ∷ deps) u =
    (u.0, get-forget tool k deps u.1, forget-IsGraph tool deps u.2)

delete-IsGraph :
    (tool : String) (deps : Dict ToolDep) → IsGraph deps → IsGraph (Dict.delete tool deps)
unfolding Dict.delete
delete-IsGraph tool [] u = tt
delete-IsGraph tool ((k, d) ∷ deps) u = elim (Bool-cases (str_eq k tool)) [
  | inl b ↦ rw (Dict.delete, b) (delete-IsGraph tool deps u.2)
  | inr b ↦
      rw (Dict.delete, b)
        (u.0, ground (arith, get-delete tool k deps), delete-IsGraph tool deps u.2)
]

register-IsGraph :
    (tool : String) (names : List String) (hard : Option Bool) (group : Option String) (now : ℕ)
    (g : ToolDependencyGraph)
    → IsGraph g.deps
    → IsGraph (register tool names hard group now g).1.deps
unfolding register
register-IsGraph tool names hard group now g u =
    let dep : ToolDep = record {
      tool = tool;
      depends_on = add_names names [];
      hard_dependency = or_else hard true;
      group = group;
      created_at = now;
    } in
    let kept = set-IsGraph dep g.deps u in
    elim (Bool-cases (text_length tool == 0 || ltb 256 (text_length tool))) [
      | inl b ↦ rw (register, b) u
      | inr b ↦
          elim (Bool-cases
            (leb g.config.max_tools (length g.deps) && not (is_registered tool g.deps))) [
              | inl c ↦ rw (register, b, c) u
              | inr c ↦ rw (register, b, c) kept
            ]
    ]

-- The calls that change the graph's entries.
pub data Call : Type 0 where
  registers : String → List String → Option Bool → Option String → ℕ → Call
  unregisters : String → Call

unfoldable pub run : List Call → ToolDependencyGraph → ToolDependencyGraph
run [] g = g
run (registers tool names hard group now ∷ cs) g = run cs (register tool names hard group now g).1
run (unregisters tool ∷ cs) g = run cs (unregister tool g).1

pub run-IsGraph :
    (cs : List Call) (g : ToolDependencyGraph) → IsGraph g.deps → IsGraph (run cs g).deps
unfolding run unregister
run-IsGraph [] g u = u
run-IsGraph (registers tool names hard group now ∷ cs) g u =
    run-IsGraph cs (register tool names hard group now g).1
      (register-IsGraph tool names hard group now g u)
run-IsGraph (unregisters tool ∷ cs) g u =
    run-IsGraph cs (unregister tool g).1
      (forget-IsGraph tool (Dict.delete tool g.deps) (delete-IsGraph tool g.deps u))

in_graph :
    (g : ToolDependencyGraph) (tool other : String)
    → IsGraph g.deps
    → (before : List String) × (after : List String) × (get_prerequisites tool g ≡ some before)
      × (get_dependents other g ≡ some after)
      × ((includes other before ≡ true) ↔ (includes tool after ≡ true))
in_graph g tool other u =
    let (before, e, d, p) = get_prerequisites_finds tool g in
    let (after, e', d', p') = get_dependents_finds other g in
    let there =
      reversed (depends_on g.deps) (dependents_of g.deps)
        (λ x y h. ground (arith, edge_iff g.deps x y u)) tool other in
    let back =
      reversed (dependents_of g.deps) (depends_on g.deps)
        (λ x y h. ground (arith, edge_iff g.deps y x u)) other tool in
    (
      before,
      after,
      e,
      e',
      (λ h. (p' tool).1 (there ((p other).0 h)), λ h. (p other).1 (back ((p' tool).0 h))),
    )

-- After any registrations and removals from an empty graph, one tool is among the prerequisites of
-- another exactly when the other is among its dependents: the two searches are the two directions of
-- one relation. Both end with an answer, also where tools depend on each other in a cycle.
pub prerequisites_dependents :
    (cs : List Call) (g : ToolDependencyGraph) (tool other : String)
    → g.deps ≡ []
    → let g' = run cs g in
      (before : List String) × (after : List String) × (get_prerequisites tool g' ≡ some before)
      × (get_dependents other g' ≡ some after)
      × ((includes other before ≡ true) ↔ (includes tool after ≡ true))
prerequisites_dependents cs g tool other start =
    in_graph (run cs g) tool other (run-IsGraph cs g (subst IsGraph (sym start) tt))
