-- ===== src/ToolDeps/Sort/Degrees.antt =====
-- The degrees that `topologicalSort` of src/tool-deps.ts counts, and the state in which its loop starts.
use text.Mathlib.TextEquality.{eq_iff}
use paygate_mcp.Base.{
  ℕ, ◌+◌, String, ◌≡◌, refl, subst, ◌∙◌, ap, inl, inr, true, false, Bool, Option, none, some, List,
  [], ◌∷◌, arith, length, ◌==◌, or_else, is_some, if◌then◌else◌, Bool-cases, Option-cases, All,
  All-map,
}
use paygate_mcp.Base.Dict.{Dict, get, set, get-set, IsMap, set-IsMap}
use paygate_mcp.Base.Text.{includes, str_eq, str_eq_refl}
use paygate_mcp.Base.Names.{IsDistinct}
use paygate_mcp.ToolDeps.{ToolDep}
use paygate_mcp.ToolDeps.Sort.{tools_of, zero_degrees, raise_degree, raise_degrees, roots}
use paygate_mcp.ToolDeps.Sort.Relaxed.{unseen-nil}
use paygate_mcp.ToolDeps.Sort.Kahn.{IsPartial}
use paygate_mcp.ToolDeps.Sort.Start.{
  needs_of, has_entry, IsEntries, needs_of-no_entry, tools_of-entry,
}

zero_degrees-get :
    (t : String) (ts : List String) (m : Dict ℕ)
    → get t (zero_degrees ts m) ≡ (if includes t ts then some 0 else get t m)
unfolding includes zero_degrees
zero_degrees-get t [] m = refl
zero_degrees-get t (x ∷ ts) m =
    ground (arith, eq_iff x t, get-set x t 0 m, zero_degrees-get t ts (set x 0 m))

raise_degree-get :
    (t tool : String) (xs : List String) (n : ℕ) (m : Dict ℕ)
    → get tool m ≡ some n
    → get t (raise_degree tool xs m) ≡ (if str_eq tool t then some (n + length xs) else get t m)
unfolding raise_degree
raise_degree-get t tool [] n m e = ground (arith, eq_iff tool t)
raise_degree-get t tool (x ∷ xs) n m e = ground (
  arith,
  eq_iff tool t,
  get-set tool tool (or_else (get tool m) 0 + 1) m,
  get-set tool t (or_else (get tool m) 0 + 1) m,
  str_eq_refl tool,
  raise_degree-get t tool xs (n + 1) (set tool (or_else (get tool m) 0 + 1) m),
)

abbrev plus : ℕ → Option ℕ → Option ℕ
plus k none = none
plus k (some n) = some (n + k)

abbrev AreKnown : Dict ℕ → List ToolDep → Type 0
AreKnown m = All (λ (d : ToolDep). is_some (get d.tool m) ≡ true)

raise_degrees-get :
    (t : String) (ds : List ToolDep) (m : Dict ℕ)
    → IsEntries ds
    → AreKnown m ds
    → get t (raise_degrees ds m) ≡ plus (length (needs_of ds t)) (get t m)
unfolding raise_degrees needs_of
raise_degrees-get t [] m h k = elim (Option-cases (get t m)) [
  | inl e ↦ ground arith
  | inr (n, e) ↦ ground arith
]
raise_degrees-get t (d ∷ ds) m h k = elim (Option-cases (get d.tool m)) [
  | inl e ↦ absurd (ground arith)
  | inr (n, e) ↦
      let raised = λ (u : String). raise_degree-get u d.tool d.depends_on n m e in
      let later = raise_degrees-get t ds (raise_degree d.tool d.depends_on m) h.2 (
        All-map (λ (c : ToolDep). is_some (get c.tool m) ≡ true)
          (λ (c : ToolDep). is_some (get c.tool (raise_degree d.tool d.depends_on m)) ≡ true) ds
          (λ c i. ground (arith, raised c.tool)) k.1) in
      elim (Bool-cases (str_eq d.tool t)) [
        | inl own ↦ rw own (
            later
            ∙ ground (
              arith,
              raised t,
              eq_iff d.tool t,
              ap length (
                  needs_of-no_entry ds t
                    (subst (λ u. has_entry u ds ≡ false) ((eq_iff d.tool t).0 own) h.0)),
            ))
        | inr other ↦
            rw other (later ∙ ap (plus (length (needs_of ds t))) (ground (arith, raised t)))
      ]
]

abbrev is_zero : Option ℕ → Bool
is_zero none = false
is_zero (some n) = n == 0

includes-roots : (t : String) (m : Dict ℕ) → IsMap m → includes t (roots m) ≡ is_zero (get t m)
unfolding includes roots get
includes-roots t [] h = refl
includes-roots t ((k, n) ∷ m) h = ground (arith, eq_iff k t, includes-roots t m h.1)

roots-IsDistinct : (m : Dict ℕ) → IsMap m → IsDistinct (roots m)
unfolding roots
roots-IsDistinct [] h = tt
roots-IsDistinct ((k, n) ∷ m) h = elim (Bool-cases (n == 0)) [
  | inl none_left ↦
      rw (roots, none_left) (ground (arith, includes-roots k m h.1), roots-IsDistinct m h.1)
  | inr some_left ↦ rw (roots, some_left) (roots-IsDistinct m h.1)
]

zero_degrees-IsMap : (ts : List String) (m : Dict ℕ) → IsMap m → IsMap (zero_degrees ts m)
unfolding zero_degrees
zero_degrees-IsMap [] m h = h
zero_degrees-IsMap (t ∷ ts) m h = zero_degrees-IsMap ts (set t 0 m) (set-IsMap t 0 m h)

raise_degree-IsMap :
    (tool : String) (xs : List String) (m : Dict ℕ) → IsMap m → IsMap (raise_degree tool xs m)
unfolding raise_degree
raise_degree-IsMap tool [] m h = h
raise_degree-IsMap tool (x ∷ xs) m h =
    raise_degree-IsMap tool xs (set tool (or_else (get tool m) 0 + 1) m)
      (set-IsMap tool (or_else (get tool m) 0 + 1) m h)

raise_degrees-IsMap : (ds : List ToolDep) (m : Dict ℕ) → IsMap m → IsMap (raise_degrees ds m)
unfolding raise_degrees
raise_degrees-IsMap [] m h = h
raise_degrees-IsMap (d ∷ ds) m h =
    raise_degrees-IsMap ds (raise_degree d.tool d.depends_on m)
      (raise_degree-IsMap d.tool d.depends_on m h)

abbrev pub degrees_of : List ToolDep → Dict ℕ
degrees_of ds = raise_degrees ds (zero_degrees (tools_of ds []) [])

has_own_entry :
    (ds all : List ToolDep)
    → ((t : String) → has_entry t ds ≡ true → has_entry t all ≡ true)
    → AreKnown (zero_degrees (tools_of all []) []) ds
unfolding has_entry
has_own_entry [] all h = tt
has_own_entry (d ∷ ds) all h = (
  ground (
    arith,
    zero_degrees-get d.tool (tools_of all []) [],
    tools_of-entry d.tool all [] (h d.tool (ground (arith, str_eq_refl d.tool))),
  ),
  has_own_entry ds all (λ t i. h t (ground arith)),
)

degrees_of-get :
    (t : String) (ds : List ToolDep)
    → IsEntries ds
    → get t (degrees_of ds)
      ≡ (if includes t (tools_of ds []) then some (length (needs_of ds t)) else none)
unfolding get
degrees_of-get t ds h = ground (
  arith,
  raise_degrees-get t ds (zero_degrees (tools_of ds []) []) h (has_own_entry ds ds (λ u i. i)),
  zero_degrees-get t (tools_of ds []) [],
)

degrees_of-IsMap : (ds : List ToolDep) → IsMap (degrees_of ds)
degrees_of-IsMap ds =
    raise_degrees-IsMap ds (zero_degrees (tools_of ds []) [])
      (zero_degrees-IsMap (tools_of ds []) [] tt)

-- The loop starts with nothing placed and the tools that need nothing in the queue.
pub start-IsPartial :
    (ds : List ToolDep)
    → IsEntries ds
    → IsPartial (needs_of ds) (tools_of ds []) [] (roots (degrees_of ds)) (degrees_of ds)
start-IsPartial ds h = record {
  counted = λ t i. ground (arith, degrees_of-get t ds h, unseen-nil (needs_of ds t));
  once = roots-IsDistinct (degrees_of ds) (degrees_of-IsMap ds);
  known = λ t i.
      ground (arith, includes-roots t (degrees_of ds) (degrees_of-IsMap ds), degrees_of-get t ds h);
  ready = λ t i. ground (
    arith,
    includes-roots t (degrees_of ds) (degrees_of-IsMap ds),
    degrees_of-get t ds h,
    unseen-nil (needs_of ds t),
  );
  awaited = λ t i e. ground (
    arith,
    includes-roots t (degrees_of ds) (degrees_of-IsMap ds),
    degrees_of-get t ds h,
    unseen-nil (needs_of ds t),
  );
  ordered = tt;
}
