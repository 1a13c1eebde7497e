-- ===== src/ToolDeps/Sort/Relaxed.antt =====
-- One round of the sort in src/tool-deps.ts: the degrees of the tools after one fall by one.
use text.Mathlib.TextEquality.{eq_iff}
use mathlib.Core.List.{append_assoc, append-nil}
use paygate_mcp.Base.{
  ℕ, ◌+◌, ◌-◌, ◌≤◌, String, ◌≡◌, ◌≢◌, refl, sym, subst, inl, inr, true, false, ◌||◌, ◌&&◌, some,
  List, [], ◌∷◌, ◌++◌, arith, length, ◌==◌, or_else, if◌then◌else◌, Bool-cases,
}
use paygate_mcp.Base.Dict.{Dict, get, set, get-set}
use paygate_mcp.Base.Text.{includes, str_eq_refl}
use paygate_mcp.Base.Names.{IsDistinct, includes-append, includes-snoc, IsDistinct-snoc}
use paygate_mcp.ToolDeps.Search.{unseen, unseen-snoc_new}
use paygate_mcp.ToolDeps.Sort.{relax}

pub unseen-nil : (xs : List String) → unseen [] xs ≡ length xs
unfolding unseen includes
unseen-nil [] = refl
unseen-nil (x ∷ xs) = omega (arith, unseen-nil xs)

-- A name that is found now and was not before is one less to be seen.
pub unseen-snoc_exact :
    (x : String) (found xs : List String)
    → IsDistinct xs
    → includes x found ≡ false
    → unseen (found ++ x ∷ []) xs + (if includes x xs then 1 else 0) ≡ unseen found xs
unfolding unseen includes
unseen-snoc_exact x found [] d n = refl
unseen-snoc_exact x found (y ∷ xs) d n =
    ground (arith, eq_iff y x, eq_iff x y, includes-snoc y x found, unseen-snoc_exact x found xs)

pub unseen_none :
    (found xs : List String) (x : String)
    → unseen found xs ≡ 0
    → includes x xs ≡ true
    → includes x found ≡ true
unfolding unseen includes
unseen_none found [] x e i = ground arith
unseen_none found (y ∷ xs) x e i = ground (arith, eq_iff y x, unseen_none found xs x)

pub unseen_some :
    (found xs : List String)
    → unseen found xs ≢ 0
    → (d : String) × (includes d xs ≡ true) × (includes d found ≡ false)
unfolding unseen includes
unseen_some found [] n = absurd (n refl)
unseen_some found (y ∷ xs) n = elim (Bool-cases (includes y found)) [
  | inl old ↦
      let (d, i, new) = unseen_some found xs (λ e. n (ground arith)) in (d, ground arith, new)
  | inr new ↦ (y, ground (arith, str_eq_refl y), new)
]

pub includes-middle :
    (x : String) (xs ys : List String) → IsDistinct (xs ++ x ∷ ys) → includes x xs ≡ false
unfolding includes
includes-middle x [] ys d = refl
includes-middle x (y ∷ xs) ys d = ground (
  arith,
  eq_iff y x,
  eq_iff x y,
  includes-append y xs (x ∷ ys),
  includes-middle x xs ys,
  str_eq_refl x,
)

-- Distinct names out of a list are no more than the list has.
pub distinct-fit :
    (found xs all : List String)
    → IsDistinct (found ++ xs)
    → ((x : String) → includes x xs ≡ true → includes x all ≡ true)
    → length xs + unseen (found ++ xs) all ≤ unseen found all
unfolding includes
distinct-fit found [] all d h = rw (append-nil found) (omega arith)
distinct-fit found (x ∷ xs) all d h =
    let more =
      distinct-fit (found ++ x ∷ []) xs all
        (subst IsDistinct (sym (append_assoc found (x ∷ []) xs)) d) (λ y i. h y (ground arith)) in
    omega (
      arith,
      subst (λ l. length xs + unseen l all ≤ unseen (found ++ x ∷ []) all)
          (append_assoc found (x ∷ []) xs) more,
      unseen-snoc_new x found all (includes-middle x found xs d)
          (h x (ground (arith, str_eq_refl x))),
    )

pub relax-get :
    (t : String) (ns queue : List String) (degrees : Dict ℕ)
    → IsDistinct ns
    → get t (relax ns degrees queue).0
      ≡ (if includes t ns then some (or_else (get t degrees) 1 - 1) else get t degrees)
unfolding relax includes
relax-get t [] queue degrees d = refl
relax-get t (x ∷ ns) queue degrees d =
    let n = or_else (get x degrees) 1 in
    ground (
      arith,
      eq_iff x t,
      get-set x t (n - 1) degrees,
      relax-get t ns (if n == 1 then queue ++ x ∷ [] else queue) (set x (n - 1) degrees) d.1,
    )

pub relax-queue :
    (t : String) (ns queue : List String) (degrees : Dict ℕ)
    → IsDistinct ns
    → includes t (relax ns degrees queue).1
      ≡ (includes t queue || (includes t ns && or_else (get t degrees) 1 == 1))
unfolding relax includes
relax-queue t [] queue degrees d = ground arith
relax-queue t (x ∷ ns) queue degrees d =
    let n = or_else (get x degrees) 1 in
    ground (
      arith,
      eq_iff x t,
      includes-snoc t x queue,
      get-set x t (n - 1) degrees,
      relax-queue t ns (if n == 1 then queue ++ x ∷ [] else queue) (set x (n - 1) degrees) d.1,
    )

pub relax-IsDistinct :
    (ns placed queue : List String) (degrees : Dict ℕ)
    → IsDistinct ns
    → IsDistinct (placed ++ queue)
    → ((t : String)
        → includes t ns ≡ true
        → (or_else (get t degrees) 1 == 1) ≡ true
        → includes t (placed ++ queue) ≡ false)
    → IsDistinct (placed ++ (relax ns degrees queue).1)
unfolding relax includes
relax-IsDistinct [] placed queue degrees d p new = p
relax-IsDistinct (x ∷ ns) placed queue degrees d p new =
    elim (Bool-cases (or_else (get x degrees) 1 == 1)) [
      | inl one ↦
          rw (relax, one)
            (relax-IsDistinct ns placed (queue ++ x ∷ []) less d.1
              (subst IsDistinct (append_assoc placed queue (x ∷ []))
                (IsDistinct-snoc x (placed ++ queue) p (new x (ground (arith, str_eq_refl x)) one)))
              (λ t i e. ground (
                arith,
                eq_iff x t,
                get-set x t (or_else (get x degrees) 1 - 1) degrees,
                new t,
                includes-append t placed queue,
                includes-append t placed (queue ++ x ∷ []),
                includes-snoc t x queue,
              )))
      | inr more ↦
          rw (relax, more)
            (relax-IsDistinct ns placed queue less d.1 p (λ t i e.
              ground
                (arith, eq_iff x t, get-set x t (or_else (get x degrees) 1 - 1) degrees, new t)))
    ]
  where
    less : Dict ℕ
    less = set x (or_else (get x degrees) 1 - 1) degrees
