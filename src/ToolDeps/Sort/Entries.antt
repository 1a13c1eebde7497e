-- ===== src/ToolDeps/Sort/Entries.antt =====
-- The entries that registrations and removals of src/tool-deps.ts leave: one for a tool, which names no
-- tool twice.
use text.Mathlib.TextEquality.{eq_iff}
use paygate_mcp.Base.{
  ℕ, String, ◌≡◌, refl, inl, inr, false, not, ◌||◌, ◌&&◌, Bool, Option, none, List, [], ◌∷◌, ◌++◌,
  arith, length, filter, ltb, leb, ◌==◌, if_both, Bool-cases,
}
use paygate_mcp.Base.Dict
use paygate_mcp.Base.Dict.{Dict}
use paygate_mcp.Base.Text.{includes, str_eq, text_length}
use paygate_mcp.Base.Names.{IsDistinct, IsDistinct-snoc}
use paygate_mcp.ToolDeps.{
  ToolDep, ToolDependencyGraph, Registered, register, unregister, forget, add_names, is_registered,
}
use paygate_mcp.ToolDeps.Reversed.{IsGraph, Call, registers, unregisters, run}
use paygate_mcp.ToolDeps.Sort.{in_group, selected}
use paygate_mcp.ToolDeps.Sort.Start.{has_entry, IsEntries}

-- No entry names a tool twice.
abbrev pub IsClean : Dict ToolDep → Type 0
IsClean [] = Unit {0}
IsClean ((k, d) ∷ deps) = IsDistinct d.depends_on × IsClean deps

selected-no_entry :
    (group : Option String) (t : String) (deps : Dict ToolDep)
    → IsGraph deps
    → Dict.get t deps ≡ none
    → has_entry t (selected group deps) ≡ false
unfolding selected has_entry Dict.get
selected-no_entry group t [] u e = refl
selected-no_entry group t ((k, d) ∷ deps) u e =
    ground (arith, eq_iff k t, selected-no_entry group t deps u.2)

pub selected-IsEntries :
    (group : Option String) (deps : Dict ToolDep)
    → IsGraph deps
    → IsClean deps
    → IsEntries (selected group deps)
unfolding selected
selected-IsEntries group [] u c = tt
selected-IsEntries group ((k, d) ∷ deps) u c = elim (Bool-cases (in_group group d)) [
  | inl inside ↦
      rw (selected, inside)
        (
          ground (arith, selected-no_entry group k deps u.2 u.1),
          c.0,
          selected-IsEntries group deps u.2 c.1,
        )
  | inr outside ↦ rw (selected, outside) (selected-IsEntries group deps u.2 c.1)
]

add_names-IsDistinct : (xs found : List String) → IsDistinct found → IsDistinct (add_names xs found)
unfolding add_names
add_names-IsDistinct [] found d = d
add_names-IsDistinct (x ∷ xs) found d = elim (Bool-cases (includes x found)) [
  | inl old ↦ rw (add_names, old) (add_names-IsDistinct xs found d)
  | inr new ↦
      rw (add_names, new)
        (add_names-IsDistinct xs (found ++ x ∷ []) (IsDistinct-snoc x found d new))
]

set-IsClean :
    (k : String) (d : ToolDep) (deps : Dict ToolDep)
    → IsDistinct d.depends_on
    → IsClean deps
    → IsClean (Dict.set k d deps)
unfolding Dict.set
set-IsClean k d [] o c = (o, tt)
set-IsClean k d ((j, e) ∷ deps) o c = elim (Bool-cases (str_eq j k)) [
  | inl same ↦ rw (Dict.set, same) (o, c.1)
  | inr other ↦ rw (Dict.set, other) (c.0, set-IsClean k d deps o c.1)
]

delete-IsClean : (k : String) (deps : Dict ToolDep) → IsClean deps → IsClean (Dict.delete k deps)
unfolding Dict.delete
delete-IsClean k [] c = tt
delete-IsClean k ((j, e) ∷ deps) c = elim (Bool-cases (str_eq j k)) [
  | inl same ↦ rw (Dict.delete, same) (delete-IsClean k deps c.1)
  | inr other ↦ rw (Dict.delete, other) (c.0, delete-IsClean k deps c.1)
]

includes-filter :
    (k : String) (p : String → Bool) (xs : List String)
    → includes k xs ≡ false
    → includes k (filter p xs) ≡ false
unfolding includes
includes-filter k p [] h = refl
includes-filter k p (x ∷ xs) h = ground (arith, includes-filter k p xs)

filter-IsDistinct :
    (p : String → Bool) (xs : List String) → IsDistinct xs → IsDistinct (filter p xs)
filter-IsDistinct p [] d = tt
filter-IsDistinct p (x ∷ xs) d = elim (Bool-cases (p x)) [
  | inl kept ↦ rw kept (includes-filter x p xs d.0, filter-IsDistinct p xs d.1)
  | inr gone ↦ rw gone (filter-IsDistinct p xs d.1)
]

forget-IsClean : (tool : String) (deps : Dict ToolDep) → IsClean deps → IsClean (forget tool deps)
unfolding forget
forget-IsClean tool [] c = tt
forget-IsClean tool ((k, d) ∷ deps) c =
    (filter-IsDistinct (λ x. not (str_eq x tool)) d.depends_on c.0, forget-IsClean tool deps c.1)

register-IsClean :
    (tool : String) (names : List String) (hard : Option Bool) (group : Option String) (now : ℕ)
    (g : ToolDependencyGraph)
    → IsClean g.deps
    → IsClean (register tool names hard group now g).1.deps
unfolding register
register-IsClean tool names hard group now g c =
    if_both Fine (text_length tool == 0 || ltb 256 (text_length tool)) _ _ c (
      if_both Fine (leb g.config.max_tools (length g.deps) && not (is_registered tool g.deps)) _ _ c
        (set-IsClean tool _ g.deps (add_names-IsDistinct names [] tt) c))
  where
    Fine : Registered × ToolDependencyGraph → Type 0
    Fine p = IsClean p.1.deps

pub run-IsClean :
    (cs : List Call) (g : ToolDependencyGraph) → IsClean g.deps → IsClean (run cs g).deps
unfolding run unregister
run-IsClean [] g c = c
run-IsClean (registers tool names hard group now ∷ cs) g c =
    run-IsClean cs (register tool names hard group now g).1
      (register-IsClean tool names hard group now g c)
run-IsClean (unregisters tool ∷ cs) g c =
    run-IsClean cs (unregister tool g).1
      (forget-IsClean tool (Dict.delete tool g.deps) (delete-IsClean tool g.deps c))
