-- ===== src/ToolDeps/Search.antt =====
-- The searches of src/tool-deps.ts along and against the dependencies.
use text.Mathlib.TextEquality.{eq_iff}
use paygate_mcp.Base.{
  ℕ, zero, suc, ◌+◌, ◌≤◌, String, ◌≡◌, ◌⊎◌, ◌↔◌, refl, sym, subst, inl, inr, true, false, not, ◌||◌,
  ◌&&◌, some, List, [], ◌∷◌, ◌++◌, arith, length, if◌then◌else◌, Bool-cases, length-append,
}
use paygate_mcp.Base.Text.{includes, str_eq, str_eq_refl}
use paygate_mcp.Base.Names.{IsDistinct, includes-snoc, IsDistinct-snoc}
use paygate_mcp.ToolDeps.{visit, search}

includes-push :
    (k x : String) (xs ys : List String)
    → includes k (if includes x xs then ys else ys ++ x ∷ [])
      ≡ (includes k ys || (str_eq x k && not (includes x xs)))
includes-push k x xs ys = ground (arith, includes-snoc k x ys)

-- What is new goes to both lists, once.
visit-found :
    (k : String) (ns found queue : List String)
    → includes k (visit ns found queue).0 ≡ (includes k found || includes k ns)
unfolding visit includes
visit-found k [] found queue = ground arith
visit-found k (x ∷ ns) found queue = ground (
  arith,
  eq_iff x k,
  includes-push k x found found,
  visit-found k ns (if includes x found then found else found ++ x ∷ [])
      (if includes x found then queue else queue ++ x ∷ []),
)

visit-queue :
    (k : String) (ns found queue : List String)
    → includes k (visit ns found queue).1
      ≡ (includes k queue || (includes k ns && not (includes k found)))
unfolding visit includes
visit-queue k [] found queue = ground arith
visit-queue k (x ∷ ns) found queue = ground (
  arith,
  eq_iff x k,
  includes-push k x found found,
  includes-push k x found queue,
  visit-queue k ns (if includes x found then found else found ++ x ∷ [])
      (if includes x found then queue else queue ++ x ∷ []),
)

visit-IsDistinct :
    (ns found queue : List String) → IsDistinct found → IsDistinct (visit ns found queue).0
unfolding visit
visit-IsDistinct [] found queue d = d
visit-IsDistinct (x ∷ ns) found queue d = elim (Bool-cases (includes x found)) [
  | inl b ↦ rw (visit, b) (visit-IsDistinct ns found queue d)
  | inr b ↦
      rw (visit, b)
        (visit-IsDistinct ns (found ++ x ∷ []) (queue ++ x ∷ []) (IsDistinct-snoc x found d b))
]

-- The entries of a list that are not found yet.
unfoldable pub unseen : List String → List String → ℕ
unseen found [] = 0
unseen found (x ∷ xs) = (if includes x found then 0 else 1) + unseen found xs

pub unseen-snoc :
    (x : String) (found all : List String) → unseen (found ++ x ∷ []) all ≤ unseen found all
unfolding unseen
unseen-snoc x found [] = omega arith
unseen-snoc x found (y ∷ all) = ground (arith, includes-snoc y x found, unseen-snoc x found all)

pub unseen-snoc_new :
    (x : String) (found all : List String)
    → includes x found ≡ false
    → includes x all ≡ true
    → suc (unseen (found ++ x ∷ []) all) ≤ unseen found all
unfolding unseen includes
unseen-snoc_new x found [] n h = ground arith
unseen-snoc_new x found (y ∷ all) n h = ground (
  arith,
  eq_iff y x,
  eq_iff x y,
  includes-snoc y x found,
  unseen-snoc x found all,
  unseen-snoc_new x found all n,
)

visit-measure :
    (all ns found queue : List String)
    → ((x : String) → includes x ns ≡ true → includes x all ≡ true)
    → let (found', queue') = visit ns found queue in
      length queue' + unseen found' all ≤ length queue + unseen found all
unfolding visit includes
visit-measure all [] found queue h = omega arith
visit-measure all (x ∷ ns) found queue h =
    let later =
      visit-measure all ns (if includes x found then found else found ++ x ∷ [])
        (if includes x found then queue else queue ++ x ∷ []) (λ y i. h y (ground arith)) in
    ground (
      arith,
      later,
      unseen-snoc_new x found all,
      h x (ground (arith, str_eq_refl x)),
      length-append queue (x ∷ []),
    )

-- `y` can be reached from `x` along `next`, in one step or more.
pub data Reaches (next : String → List String) : String → String → Type 0 where
  direct : {x y : String} → includes y (next x) ≡ true → Reaches next x y
  beyond : {x y z : String} → Reaches next x y → includes z (next y) ≡ true → Reaches next x z

module _ (next : String → List String) (start : String) where
  -- What the search keeps: it has found only what can be reached, and what it has found but not yet
  -- looked at waits in the queue.
  record IsSearch (queue found : List String) : Type 0 where
    sound : (x : String) → includes x found ≡ true → Reaches next start x
    queued : (x : String) → includes x queue ≡ true → (x ≡ start) ⊎ Reaches next start x
    closed :
        (x : String)
        → (x ≡ start) ⊎ (includes x found ≡ true)
        → (includes x queue ≡ true)
          ⊎ ((y : String) → includes y (next x) ≡ true → includes y found ≡ true)
    distinct : IsDistinct found

  onward :
      (x y : String)
      → (x ≡ start) ⊎ Reaches next start x
      → includes y (next x) ≡ true
      → Reaches next start y
  onward x y (inl e) h = direct (subst (λ z. includes y (next z) ≡ true) e h)
  onward x y (inr r) h = beyond r h

  same : (x y : String) → str_eq x y ≡ true → x ≡ y
  same x y b = (eq_iff x y).0 b

  -- What is found after a visit was found before, or is in the queue now.
  seen_before :
      (y : String) (ns queue found : List String)
      → let (found', queue') = visit ns found queue in
        (y ≡ start) ⊎ (includes y found' ≡ true)
        → ((y ≡ start) ⊎ (includes y found ≡ true)) ⊎ (includes y queue' ≡ true)
  seen_before y ns queue found (inl e) = inl (inl e)
  seen_before y ns queue found (inr h) = elim (Bool-cases (includes y found)) [
    | inl b ↦ inl (inr b)
    | inr b ↦ inr (ground (arith, visit-found y ns found queue, visit-queue y ns found queue))
  ]

  others :
      (x y : String) (queue found : List String)
      → IsSearch (x ∷ queue) found
      → str_eq x y ≡ false
      → let (found', queue') = visit (next x) found queue in
        ((y ≡ start) ⊎ (includes y found ≡ true)) ⊎ (includes y queue' ≡ true)
        → (includes y queue' ≡ true)
          ⊎ ((z : String) → includes z (next y) ≡ true → includes z found' ≡ true)
  unfolding includes
  others x y queue found s apart (inr h) = inl h
  others x y queue found s apart (inl h) = elim (s.closed y h) [
    | inl i ↦ inl (ground (arith, visit-queue y (next x) found queue))
    | inr f ↦ inr (λ z i. ground (arith, visit-found z (next x) found queue, f z i))
  ]

  visit-IsSearch :
      (x : String) (queue found : List String)
      → IsSearch (x ∷ queue) found
      → let (found', queue') = visit (next x) found queue in IsSearch queue' found'
  unfolding includes
  visit-IsSearch x queue found s = record {
    sound = λ y h. elim (Bool-cases (includes y found)) [
      | inl b ↦ s.sound y b
      | inr b ↦
          onward x y (s.queued x (ground (arith, str_eq_refl x)))
            (ground (arith, visit-found y (next x) found queue))
    ];
    queued = λ y h. elim (Bool-cases (includes y queue)) [
      | inl b ↦ s.queued y (ground arith)
      | inr b ↦ inr (
          onward x y (s.queued x (ground (arith, str_eq_refl x)))
            (ground (arith, visit-queue y (next x) found queue)))
    ];
    closed = λ y h. elim (Bool-cases (str_eq x y)) [
      | inl b ↦ inr (λ z i. ground (
        arith,
        visit-found z (next x) found queue,
        subst (λ w. includes z (next w) ≡ true) (sym (same x y b)) i,
      ))
      | inr b ↦ others x y queue found s b (seen_before y (next x) queue found h)
    ];
    distinct = visit-IsDistinct (next x) found queue s.distinct;
  }

  module _ (all : List String)
      (known : (x y : String) → includes y (next x) ≡ true → includes y all ≡ true) where
    -- The search ends within the fuel that the queue and what is not yet found ask for.
    search-IsSearch :
        (fuel : ℕ) (queue found : List String)
        → length queue + unseen found all ≤ fuel
        → IsSearch queue found
        → (found' : List String) × (search next fuel queue found ≡ some found') × IsSearch [] found'
    unfolding search
    search-IsSearch fuel [] found h s = (found, refl, s)
    search-IsSearch zero (x ∷ queue) found h s = ground arith
    search-IsSearch (suc fuel) (x ∷ queue) found h s =
        let (found', queue') = visit (next x) found queue in
        search-IsSearch fuel queue' found'
          (ground (arith, visit-measure all (next x) found queue (known x)))
          (visit-IsSearch x queue found s)

    from_closed :
        (found : List String)
        → IsSearch [] found
        → (x y : String) → (x ≡ start) ⊎ (includes x found ≡ true)
        → includes y (next x) ≡ true
        → includes y found ≡ true
    unfolding includes
    from_closed found s x y k h = elim (s.closed x k) [ inl i ↦ ground arith | inr f ↦ f y h ]

    unseen-none : (xs : List String) → unseen [] xs ≡ length xs
    unfolding unseen includes
    unseen-none [] = refl
    unseen-none (x ∷ xs) = omega (arith, unseen-none xs)

    start-IsSearch : IsSearch (start ∷ []) []
    unfolding includes
    start-IsSearch = record {
      sound = λ x h. ground arith;
      queued = λ x h. inl (ground (arith, eq_iff start x));
      closed = λ x h. inl (ground (arith, str_eq_refl start));
      distinct = tt;
    }

    reached :
        (found : List String)
        → IsSearch [] found
        → (x : String) → Reaches next start x
        → includes x found ≡ true
    reached found s x (direct h) = from_closed found s start x (inl refl) h
    reached found s x (beyond {y = y} r h) = from_closed found s y x (inr (reached found s y r)) h

    -- From the start alone the search finds each name that can be reached, once, and no other.
    pub search_finds :
        (fuel : ℕ)
        → suc (length all) ≤ fuel
        → (found : List String) × (search next fuel (start ∷ []) [] ≡ some found)
          × IsDistinct found
          × ((x : String) → (includes x found ≡ true) ↔ Reaches next start x)
    search_finds fuel h =
        let (found, e, s) =
          search-IsSearch fuel (start ∷ []) [] (omega (arith, unseen-none all, h)) start-IsSearch in
        (found, e, s.distinct, λ x. (s.sound x, reached found s x))
