-- ===== src/ToolDeps/Sort/Kahn.antt =====
-- The loop of `topologicalSort` in src/tool-deps.ts, on any graph with both directions of its edges.
use mathlib.Core.List.{append_assoc, append-nil}
use paygate_mcp.Base.{
  ℕ, zero, suc, ◌+◌, ◌≤◌, String, ◌≡◌, ◌≢◌, refl, sym, subst, ap, true, false, ◌||◌, ◌&&◌, Bool,
  some, List, [], ◌∷◌, ◌++◌, arith, length, ◌==◌, or_else, if◌then◌else◌, length-append,
}
use paygate_mcp.Base.Dict.{Dict, get}
use paygate_mcp.Base.Text.{includes, str_eq_refl}
use paygate_mcp.Base.Names.{IsDistinct, includes-append, includes-snoc}
use paygate_mcp.ToolDeps.Search.{unseen}
use paygate_mcp.ToolDeps.Sort.{relax, kahn}
use paygate_mcp.ToolDeps.Sort.Relaxed.{
  unseen-nil, unseen-snoc_exact, unseen_none, includes-middle, distinct-fit, relax-get, relax-queue,
  relax-IsDistinct, unseen_some,
}

-- Each name of the list comes after all that it depends on, where `done` has come before.
abbrev pub IsOrdered : (String → List String) → List String → List String → Type 0
IsOrdered needs done [] = Unit {0}
IsOrdered needs done (x ∷ xs) =
    ((d : String) → includes d (needs x) ≡ true → includes d done ≡ true)
    × IsOrdered needs (done ++ x ∷ []) xs

IsOrdered-snoc :
    (needs : String → List String) (done xs : List String) (x : String)
    → IsOrdered needs done xs
    → ((d : String) → includes d (needs x) ≡ true → includes d (done ++ xs) ≡ true)
    → IsOrdered needs done (xs ++ x ∷ [])
IsOrdered-snoc needs done [] x o h = (λ d i. rw (append-nil done) at (h d i), tt)
IsOrdered-snoc needs done (y ∷ xs) x o h = (
  o.0,
  IsOrdered-snoc needs (done ++ y ∷ []) xs x o.1
      (λ d i. rw (append_assoc done (y ∷ []) xs) (h d i)),
)

-- A graph: what each tool needs, and after which tools each comes.
pub record IsGraphOf (needs edges : String → List String) (tools : List String) : Type 0 where
  pub converse : (x y : String) → includes x (edges y) ≡ includes y (needs x)
  pub needs_once : (x : String) → IsDistinct (needs x)
  pub edges_once : (x : String) → IsDistinct (edges x)
  pub needs_known : (x y : String) → includes y (needs x) ≡ true → includes y tools ≡ true
  pub edges_known : (x y : String) → includes x (edges y) ≡ true → includes x tools ≡ true

-- The state between two rounds.
pub record IsPartial (needs : String → List String) (tools order queue : List String)
    (degrees : Dict ℕ) : Type 0 where
  pub counted :
      (t : String) → includes t tools ≡ true → get t degrees ≡ some (unseen order (needs t))
  pub once : IsDistinct (order ++ queue)
  pub known : (t : String) → includes t (order ++ queue) ≡ true → includes t tools ≡ true
  pub ready : (t : String) → includes t (order ++ queue) ≡ true → unseen order (needs t) ≡ 0
  pub awaited :
      (t : String)
      → includes t tools ≡ true
      → unseen order (needs t) ≡ 0
      → includes t (order ++ queue) ≡ true
  pub ordered : IsOrdered needs [] order

module _ (needs edges : String → List String) (tools : List String)
    (g : IsGraphOf needs edges tools) (order queue : List String) (tool : String) (degrees : Dict ℕ)
    (p : IsPartial needs tools order (tool ∷ queue) degrees) where
  abbrev next_order : List String
  next_order = order ++ tool ∷ []

  abbrev relaxed : Dict ℕ × List String
  relaxed = relax (edges tool) degrees queue

  regrouped : next_order ++ queue ≡ order ++ tool ∷ queue
  regrouped = append_assoc order (tool ∷ []) queue

  fresh_tool : includes tool order ≡ false
  fresh_tool = includes-middle tool order queue p.once

  placed_tool : includes tool (order ++ tool ∷ queue) ≡ true
  unfolding includes
  placed_tool = ground (arith, includes-append tool order (tool ∷ queue), str_eq_refl tool)

  falls :
      (t : String)
      → unseen next_order (needs t) + (if includes t (edges tool) then 1 else 0)
        ≡ unseen order (needs t)
  falls t =
      rw (g.converse t tool) (unseen-snoc_exact tool order (needs t) (g.needs_once t) fresh_tool)

  next_counted :
      (t : String) → includes t tools ≡ true → get t relaxed.0 ≡ some (unseen next_order (needs t))
  next_counted t i =
      ground
        (arith, relax-get t (edges tool) queue degrees (g.edges_once tool), p.counted t i, falls t)

  -- What stands in the order or the queue after the round.
  next_placed :
      (t : String)
      → includes t (next_order ++ relaxed.1) ≡ (
          includes t (order ++ tool ∷ queue)
          || (includes t (edges tool) && or_else (get t degrees) 1 == 1))
  unfolding includes
  next_placed t = ground (
    arith,
    includes-append t next_order relaxed.1,
    includes-append t order (tool ∷ queue),
    includes-snoc t tool order,
    relax-queue t (edges tool) queue degrees (g.edges_once tool),
  )

  next-IsPartial : IsPartial needs tools next_order relaxed.1 relaxed.0
  next-IsPartial = record {
    counted = next_counted;
    once =
        relax-IsDistinct (edges tool) next_order queue degrees (g.edges_once tool)
          (subst IsDistinct (sym regrouped) p.once)
          (λ t i e. rw regrouped (ground (arith, p.ready t, p.counted t (g.edges_known t tool i))));
    known = λ t i. ground (arith, next_placed t, p.known t, g.edges_known t tool);
    ready =
        λ t i. ground (arith, next_placed t, p.ready t, falls t, p.counted t, g.edges_known t tool);
    awaited = λ t i e. ground (arith, next_placed t, p.awaited t i, falls t, p.counted t i);
    ordered =
        IsOrdered-snoc needs [] order tool p.ordered
          (λ d i. unseen_none order (needs tool) d (p.ready tool placed_tool) i);
  }

-- The order that is left at the end: each tool once, after all that it needs; and a tool that is left
-- out needs another one that is left out.
pub record IsSorted (needs : String → List String) (tools order : List String) : Type 0 where
  pub once : IsDistinct order
  pub known : (t : String) → includes t order ≡ true → includes t tools ≡ true
  pub ordered : IsOrdered needs [] order
  pub stuck :
      (t : String)
      → includes t tools ≡ true
      → includes t order ≡ false
      → (d : String) × (includes d (needs t) ≡ true) × (includes d order ≡ false)

partial-IsSorted :
    (needs : String → List String) (tools order : List String) (degrees : Dict ℕ)
    → IsPartial needs tools order [] degrees
    → IsSorted needs tools order
partial-IsSorted needs tools order degrees p = record {
  once = rw append-nil at p.once;
  known = λ t i. p.known t (rw append-nil i);
  ordered = p.ordered;
  stuck = λ t i o. unseen_some order (needs t) (not_ready t i o);
}
  where
    not_ready :
        (t : String)
        → includes t tools ≡ true
        → includes t order ≡ false
        → unseen order (needs t) ≢ 0
    not_ready t i o e = ground (arith, ap (includes t) (append-nil order), p.awaited t i e)

-- A round for each tool is enough.
pub kahn-IsSorted :
    (needs edges : String → List String) (tools : List String) (fuel : ℕ) (queue : List String)
    (degrees : Dict ℕ) (order : List String) (processed level_size depth : ℕ)
    → IsGraphOf needs edges tools
    → IsPartial needs tools order queue degrees
    → length tools ≤ fuel + length order
    → (sorted : List String) × (levels : ℕ) × (kahn edges fuel queue degrees order processed
          level_size depth
        ≡ some (sorted, levels))
      × IsSorted needs tools sorted
unfolding kahn
kahn-IsSorted needs edges tools zero [] degrees order processed level_size depth g p fits =
    (order, depth, refl, partial-IsSorted needs tools order degrees p)
kahn-IsSorted needs edges tools (suc fuel) [] degrees order processed level_size depth g p fits =
    (order, depth, refl, partial-IsSorted needs tools order degrees p)
kahn-IsSorted needs edges tools zero (tool ∷ queue) degrees order processed level_size depth g p
      fits =
    absurd (
      omega (
        arith,
        distinct-fit [] (order ++ tool ∷ queue) tools p.once p.known,
        unseen-nil tools,
        length-append order (tool ∷ queue),
      ))
kahn-IsSorted needs edges tools (suc fuel) (tool ∷ queue) degrees order processed level_size depth g
      p fits =
    kahn-IsSorted needs edges tools fuel (relax (edges tool) degrees queue).1
      (relax (edges tool) degrees queue).0 (order ++ tool ∷ []) (if full then 0 else processed + 1)
      (if full then length (relax (edges tool) degrees queue).1 else level_size)
      (if processed == 0 then depth + 1 else depth) g
      (next-IsPartial needs edges tools g order queue tool degrees p)
      (omega (arith, length-append order (tool ∷ [])))
  where
    full : Bool
    full = processed + 1 == level_size
