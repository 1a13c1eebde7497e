-- ===== src/ToolDeps/Sort/Start.antt =====
-- What `topologicalSort` of src/tool-deps.ts builds before its loop: the set of tools, the edges, the
-- degrees and the first queue.
use text.Mathlib.TextEquality.{eq_iff}
use paygate_mcp.Base.{
  String, ◌≡◌, refl, subst, inl, inr, true, false, ◌||◌, ◌&&◌, Bool, List, [], ◌∷◌, ◌++◌, arith,
  if◌then◌else◌, Bool-cases,
}
use paygate_mcp.Base.Text.{includes, str_eq}
use paygate_mcp.Base.Names.{IsDistinct, includes-snoc}
use paygate_mcp.ToolDeps.{ToolDep, add_names}
use paygate_mcp.ToolDeps.Sort.{tools_of, push_edges, edges_of}
use paygate_mcp.ToolDeps.Sort.Kahn.{IsGraphOf}

-- What the entry of a tool names.
unfoldable pub needs_of : List ToolDep → String → List String
needs_of [] tool = []
needs_of (d ∷ ds) tool = if str_eq d.tool tool then d.depends_on else needs_of ds tool

unfoldable pub has_entry : String → List ToolDep → Bool
has_entry tool [] = false
has_entry tool (d ∷ ds) = str_eq d.tool tool || has_entry tool ds

-- One entry for a tool, and no tool twice in an entry.
abbrev pub IsEntries : List ToolDep → Type 0
IsEntries [] = Unit {0}
IsEntries (d ∷ ds) = (has_entry d.tool ds ≡ false) × IsDistinct d.depends_on × IsEntries ds

pub needs_of-no_entry :
    (ds : List ToolDep) (t : String) → has_entry t ds ≡ false → needs_of ds t ≡ []
unfolding needs_of has_entry
needs_of-no_entry [] t h = refl
needs_of-no_entry (d ∷ ds) t h = ground (arith, needs_of-no_entry ds t)

needs_once : (ds : List ToolDep) (t : String) → IsEntries ds → IsDistinct (needs_of ds t)
unfolding needs_of
needs_once [] t h = tt
needs_once (d ∷ ds) t h = elim (Bool-cases (str_eq d.tool t)) [
  | inl own ↦ rw own h.1
  | inr other ↦ rw other (needs_once ds t h.2)
]

includes-push_edges :
    (x from tool : String) (xs rest : List String)
    → includes x (push_edges from tool xs rest)
      ≡ ((str_eq tool x && includes from xs) || includes x rest)
unfolding includes push_edges
includes-push_edges x from tool [] rest = ground arith
includes-push_edges x from tool (y ∷ xs) rest =
    ground (arith, includes-push_edges x from tool xs rest)

edges_of-no_entry :
    (ds : List ToolDep) (x y : String) → has_entry x ds ≡ false → includes x (edges_of ds y) ≡ false
unfolding includes edges_of has_entry
edges_of-no_entry [] x y h = refl
edges_of-no_entry (d ∷ ds) x y h =
    ground
      (arith, includes-push_edges x y d.tool d.depends_on (edges_of ds y), edges_of-no_entry ds x y)

converse :
    (ds : List ToolDep) (x y : String)
    → IsEntries ds
    → includes x (edges_of ds y) ≡ includes y (needs_of ds x)
unfolding includes edges_of needs_of
converse [] x y h = refl
converse (d ∷ ds) x y h = ground (
  arith,
  eq_iff d.tool x,
  includes-push_edges x y d.tool d.depends_on (edges_of ds y),
  converse ds x y h.2,
  edges_of-no_entry ds x y,
)

push_edges_none :
    (from tool : String) (xs rest : List String)
    → includes from xs ≡ false
    → push_edges from tool xs rest ≡ rest
unfolding includes push_edges
push_edges_none from tool [] rest h = refl
push_edges_none from tool (x ∷ xs) rest h = ground (arith, push_edges_none from tool xs rest)

push_edges-IsDistinct :
    (from tool : String) (xs rest : List String)
    → IsDistinct xs
    → IsDistinct rest
    → includes tool rest ≡ false
    → IsDistinct (push_edges from tool xs rest)
unfolding push_edges
push_edges-IsDistinct from tool [] rest d r n = r
push_edges-IsDistinct from tool (x ∷ xs) rest d r n = elim (Bool-cases (str_eq x from)) [
  | inl same ↦
      rw
        (
          push_edges,
          same,
          push_edges_none from tool xs rest
              (subst (λ k. includes k xs ≡ false) ((eq_iff x from).0 same) d.0),
        )
        (n, r)
  | inr other ↦ rw (push_edges, other) (push_edges-IsDistinct from tool xs rest d.1 r n)
]

edges_once : (ds : List ToolDep) (y : String) → IsEntries ds → IsDistinct (edges_of ds y)
unfolding edges_of
edges_once [] y h = tt
edges_once (d ∷ ds) y h =
    push_edges-IsDistinct y d.tool d.depends_on (edges_of ds y) h.1 (edges_once ds y h.2)
      (edges_of-no_entry ds d.tool y h.0)

includes-add_names :
    (k : String) (xs found : List String)
    → includes k (add_names xs found) ≡ (includes k found || includes k xs)
unfolding includes add_names
includes-add_names k [] found = ground arith
includes-add_names k (x ∷ xs) found = ground (
  arith,
  eq_iff x k,
  includes-snoc k x found,
  includes-add_names k xs (if includes x found then found else found ++ x ∷ []),
)

-- A tool of an entry stays in the set.
tools_of_kept :
    (t : String) (ds : List ToolDep) (found : List String)
    → includes t found ≡ true
    → includes t (tools_of ds found) ≡ true
unfolding tools_of
tools_of_kept t [] found h = h
tools_of_kept t (d ∷ ds) found h =
    tools_of_kept t ds (add_names (d.tool ∷ d.depends_on) found)
      (ground (arith, includes-add_names t (d.tool ∷ d.depends_on) found))

pub tools_of-entry :
    (t : String) (ds : List ToolDep) (found : List String)
    → has_entry t ds ≡ true
    → includes t (tools_of ds found) ≡ true
unfolding tools_of has_entry includes
tools_of-entry t [] found h = absurd (ground arith)
tools_of-entry t (d ∷ ds) found h = elim (Bool-cases (str_eq d.tool t)) [
  | inl own ↦
      tools_of_kept t ds (add_names (d.tool ∷ d.depends_on) found)
        (ground (arith, includes-add_names t (d.tool ∷ d.depends_on) found))
  | inr other ↦ tools_of-entry t ds (add_names (d.tool ∷ d.depends_on) found) (ground arith)
]

tools_of-need :
    (t d : String) (ds : List ToolDep) (found : List String)
    → includes d (needs_of ds t) ≡ true
    → includes d (tools_of ds found) ≡ true
unfolding tools_of needs_of includes
tools_of-need t d [] found h = absurd (ground arith)
tools_of-need t d (c ∷ ds) found h = elim (Bool-cases (str_eq c.tool t)) [
  | inl own ↦
      tools_of_kept d ds (add_names (c.tool ∷ c.depends_on) found)
        (ground (arith, includes-add_names d (c.tool ∷ c.depends_on) found))
  | inr other ↦ tools_of-need t d ds (add_names (c.tool ∷ c.depends_on) found) (ground arith)
]

pub entries-IsGraphOf :
    (ds : List ToolDep) → IsEntries ds → IsGraphOf (needs_of ds) (edges_of ds) (tools_of ds [])
entries-IsGraphOf ds h = record {
  converse = λ x y. converse ds x y h;
  needs_once = λ x. needs_once ds x h;
  edges_once = λ x. edges_once ds x h;
  needs_known = λ x y i. tools_of-need x y ds [] i;
  edges_known = λ x y i. elim (Bool-cases (has_entry x ds)) [
    | inl there ↦ tools_of-entry x ds [] there
    | inr missing ↦ ground (arith, edges_of-no_entry ds x y missing)
  ];
}
