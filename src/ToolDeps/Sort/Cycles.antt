-- ===== src/ToolDeps/Sort/Cycles.antt =====
-- The tools that the sort of src/tool-deps.ts leaves out, and the cycles of the graph.
use text.Mathlib.TextEquality.{eq_iff}
use mathlib.Core.List.{append_assoc}
use paygate_mcp.Base.{
  ℕ, zero, suc, ◌+◌, ◌≤◌, String, ◌≡◌, ◌⊎◌, refl, sym, subst, inl, inr, true, false, List, [], ◌∷◌,
  ◌++◌, arith, length, Bool-cases, length-append,
}
use paygate_mcp.Base.Text.{includes, str_eq}
use paygate_mcp.Base.Names.{IsDistinct, includes-snoc, IsDistinct-snoc}
use paygate_mcp.ToolDeps.Search.{Reaches, direct, beyond}
use paygate_mcp.ToolDeps.Sort.Relaxed.{unseen-nil, includes-middle, distinct-fit}
use paygate_mcp.ToolDeps.Sort.Kahn.{IsGraphOf, IsSorted, IsOrdered}

module _ (needs : String → List String) where
  -- A set of tools with all that they need.
  abbrev IsClosed : List String → Type 0
  IsClosed done =
      (x d : String) → includes x done ≡ true → includes d (needs x) ≡ true → includes d done ≡ true

  done_contains :
      (done : List String) (x y : String)
      → IsClosed done
      → ((d : String) → includes d (needs x) ≡ true → includes d done ≡ true)
      → Reaches needs x y
      → includes y done ≡ true
  done_contains done x y closed first (direct i) = first y i
  done_contains done x z closed first (beyond {y = y} r i) =
      closed y z (done_contains done x y closed first r) i

  IsClosed-snoc :
      (done : List String) (x : String)
      → IsClosed done
      → ((d : String) → includes d (needs x) ≡ true → includes d done ≡ true)
      → IsClosed (done ++ x ∷ [])
  IsClosed-snoc done x closed first y d i j = elim (Bool-cases (str_eq x y)) [
    | inl same ↦ ground (
      arith,
      includes-snoc d x done,
      first d (subst (λ k. includes d (needs k) ≡ true) (sym ((eq_iff x y).0 same)) j),
    )
    | inr other ↦ ground (arith, includes-snoc y x done, includes-snoc d x done, closed y d)
  ]

  -- No tool of an ordered list is on a cycle.
  pub ordered_acyclic :
      (done xs : List String) (t : String)
      → IsClosed done
      → IsOrdered needs done xs
      → IsDistinct (done ++ xs)
      → includes t xs ≡ true
      → Reaches needs t t
      → ⊥
  unfolding includes
  ordered_acyclic done [] t closed o d i r = cc
  ordered_acyclic done (x ∷ xs) t closed o d i r = elim (Bool-cases (str_eq x t)) [
    | inl same ↦
        let own : Reaches needs x x =
          subst (λ k. Reaches needs k k) (sym ((eq_iff x t).0 same)) r in
        ground (arith, done_contains done x x closed o.0 own, includes-middle x done xs d)
    | inr other ↦
        ordered_acyclic (done ++ x ∷ []) xs t (IsClosed-snoc done x closed o.0) o.1
          (subst IsDistinct (sym (append_assoc done (x ∷ []) xs)) d) (ground arith) r
  ]

module _ (needs edges : String → List String) (tools order : List String)
    (g : IsGraphOf needs edges tools) (s : IsSorted needs tools order) where
  -- A walk from one left-out tool to the next, in which no tool comes twice so far.
  record IsWalk (path : List String) (last : String) : Type 0 where
    once : IsDistinct path
    known : (x : String) → includes x path ≡ true → includes x tools ≡ true
    end_left : includes last order ≡ false
    end_known : includes last tools ≡ true
    leads : (x : String) → includes x path ≡ true → (x ≡ last) ⊎ Reaches needs x last

  step_cycle :
      (path : List String) (last d : String)
      → IsWalk path last
      → includes d (needs last) ≡ true
      → includes d path ≡ true
      → Reaches needs d d
  step_cycle path last d w i there = elim (w.leads d there) [
    | inl same ↦ direct (subst (λ k. includes d (needs k) ≡ true) (sym same) i)
    | inr r ↦ beyond r i
  ]

  step-IsWalk :
      (path : List String) (last d : String)
      → IsWalk path last
      → includes d (needs last) ≡ true
      → includes d order ≡ false
      → includes d path ≡ false
      → IsWalk (path ++ d ∷ []) d
  step-IsWalk path last d w i out new = record {
    once = IsDistinct-snoc d path w.once new;
    known = λ x j.
        ground (arith, includes-snoc x d path, eq_iff d x, w.known x, g.needs_known last d i);
    end_left = out;
    end_known = g.needs_known last d i;
    leads = λ x j. elim (Bool-cases (includes x path)) [
      | inl old ↦ elim (w.leads x old) [
        | inl same ↦ inr (direct (subst (λ k. includes d (needs k) ≡ true) (sym same) i))
        | inr r ↦ inr (beyond r i)
      ]
      | inr fresh ↦ inl (ground (arith, includes-snoc x d path, eq_iff d x))
    ];
  }

  -- With no tool twice the walk is no longer than the list of tools, so that it closes.
  walk_closes :
      (fuel : ℕ) (path : List String) (last : String)
      → IsWalk path last
      → length tools ≤ fuel + length path
      → (t : String) × Reaches needs t t
  walk_closes zero path last w fits =
      let (d, i, out) = s.stuck last w.end_known w.end_left in
      elim (Bool-cases (includes d path)) [
        | inl there ↦ (d, step_cycle path last d w i there)
        | inr new ↦
            let longer = step-IsWalk path last d w i out new in
            absurd (
              omega (
                arith,
                distinct-fit [] (path ++ d ∷ []) tools longer.once longer.known,
                unseen-nil tools,
                length-append path (d ∷ []),
              ))
      ]
  walk_closes (suc fuel) path last w fits =
      let (d, i, out) = s.stuck last w.end_known w.end_left in
      elim (Bool-cases (includes d path)) [
        | inl there ↦ (d, step_cycle path last d w i there)
        | inr new ↦
            walk_closes fuel (path ++ d ∷ []) d (step-IsWalk path last d w i out new)
              (omega (arith, length-append path (d ∷ [])))
      ]

  -- Where a tool is left out there is a cycle.
  pub left_out_cycle :
      (t : String)
      → includes t tools ≡ true
      → includes t order ≡ false
      → (x : String) × Reaches needs x x
  unfolding includes
  left_out_cycle t i out =
      walk_closes (length tools) (t ∷ []) t
        (record {
          once = (refl, tt);
          known = λ x j. ground (arith, eq_iff t x);
          end_left = out;
          end_known = i;
          leads = λ x j. inl (ground (arith, eq_iff t x));
        })
        (omega arith)

  -- A tool on a cycle is known, and left out.
  pub cycle_left_out :
      (t : String) → Reaches needs t t → (includes t tools ≡ true) × (includes t order ≡ false)
  cycle_left_out t r = (
    cycle_known t t r,
    elim (Bool-cases (includes t order)) [
      | inl placed ↦ absurd (
          ordered_acyclic needs [] order t (λ x d i j. unfold includes in cc) s.ordered s.once
            placed r)
      | inr out ↦ out
    ],
  )
    where
      cycle_known : (x y : String) → Reaches needs x y → includes y tools ≡ true
      cycle_known x y (direct i) = g.needs_known x y i
      cycle_known x z (beyond {y = y} q i) = g.needs_known y z i
