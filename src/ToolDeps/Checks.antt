-- ===== src/ToolDeps/Checks.antt =====
-- The check of src/tool-deps.ts before a tool runs, against the workflow's records.
use text.Mathlib.TextEquality.{eq_iff}
use paygate_mcp.Base.{
  String, ◌≡◌, ◌↔◌, refl, subst, Bool, true, false, not, ◌||◌, ◌&&◌, some, none, List, [], ◌∷◌,
  arith, filter, is_nonempty, or_else, if◌then◌else◌, Bool-cases, inl, inr,
}
use paygate_mcp.Base.Dict
use paygate_mcp.Base.Text.{includes, str_eq, str_eq_refl}
use paygate_mcp.ToolDeps.{
  ToolDep, ToolDependencyGraph, ExecutionRecord, DepCheckResult, tools_with, failed_of,
  unsatisfied_of, judge, judge_tool, check, passed,
}

module _ (p : String → Bool) where
  none_passes :
      (xs : List String)
      → is_nonempty (filter p xs) ≡ false
      → (x : String) → includes x xs ≡ true
      → p x ≡ false
  unfolding includes
  none_passes [] h x i = ground arith
  none_passes (y ∷ xs) h x i = elim (Bool-cases (p y)) [
    | inl b ↦ ground arith
    | inr b ↦ elim (Bool-cases (str_eq y x)) [
      | inl e ↦ subst (λ z. p z ≡ false) ((eq_iff y x).0 e) b
      | inr e ↦ none_passes xs (ground arith) x (ground arith)
    ]
  ]

  all_fail :
      (xs : List String)
      → ((x : String) → includes x xs ≡ true → p x ≡ false)
      → is_nonempty (filter p xs) ≡ false
  unfolding includes
  all_fail [] h = refl
  all_fail (y ∷ xs) h =
      ground (arith, h y (ground (arith, str_eq_refl y)), all_fail xs (λ x i. h x (ground arith)))

-- What a tool asks of each of its dependencies, in a workflow with these records.
abbrev pub IsSatisfied : Bool → List ExecutionRecord → String → Type 0
IsSatisfied true records x =
    (includes x (tools_with true records) ≡ true) × (includes x (tools_with false records) ≡ false)
IsSatisfied false records x =
    (includes x (tools_with true records) || includes x (tools_with false records)) ≡ true

module _ (good bad required : List String) where
  judge_hard :
      ((judge true (unsatisfied_of good bad required) (failed_of bad required)).allowed ≡ true) ↔ (
        (x : String)
        → includes x required ≡ true
        → (includes x good ≡ true) × (includes x bad ≡ false))
  judge_hard = (
    λ h x i.
        let b = none_passes (λ y. includes y bad) required (ground arith) x i in
        let u =
          none_passes (λ y. not (includes y bad) && not (includes y good)) required (ground arith) x
            i in
        ground arith,
    λ h.
        let b = all_fail (λ y. includes y bad) required (λ x i. (h x i).1) in
        let u =
          all_fail (λ y. not (includes y bad) && not (includes y good)) required
            (λ x i. ground (arith, h x i)) in
        ground arith,
  )

  judge_soft :
      ((judge false (unsatisfied_of good bad required) (failed_of bad required)).allowed ≡ true)
      ↔ ((x : String) → includes x required ≡ true → (includes x good || includes x bad) ≡ true)
  judge_soft = (
    λ h x i.
        let u =
          none_passes (λ y. not (includes y bad) && not (includes y good)) required (ground arith) x
            i in
        ground arith,
    λ h.
        let u =
          all_fail (λ y. not (includes y bad) && not (includes y good)) required
            (λ x i. ground (arith, h x i)) in
        ground arith,
  )

judge_iff :
    (hard : Bool) (records : List ExecutionRecord) (required : List String)
    → ((judge hard
          (unsatisfied_of (tools_with true records) (tools_with false records) required)
          (failed_of (tools_with false records) required)).allowed
        ≡ true)
      ↔ ((x : String) → includes x required ≡ true → IsSatisfied hard records x)
judge_iff true records required =
    judge_hard (tools_with true records) (tools_with false records) required
judge_iff false records required =
    judge_soft (tools_with true records) (tools_with false records) required

no_names : (x : String) → includes x [] ≡ false
unfolding includes
no_names x = refl

abbrev verdict : Bool → List ExecutionRecord → List String → DepCheckResult
verdict hard records required =
    let good = tools_with true records in
    let bad = tools_with false records in
    if is_nonempty required
    then judge hard (unsatisfied_of good bad required) (failed_of bad required)
    else passed

verdict_iff :
    (hard : Bool) (records : List ExecutionRecord) (required : List String)
    → ((verdict hard records required).allowed ≡ true)
      ↔ ((x : String) → includes x required ≡ true → IsSatisfied hard records x)
verdict_iff hard records [] = (λ h x i. ground (arith, no_names x), λ h. refl)
verdict_iff hard records (y ∷ required) = judge_iff hard records (y ∷ required)

check_lem :
    (tool workflow : String) (g : ToolDependencyGraph)
    → g.config.enabled ≡ true
    → (check tool workflow g).0
      ≡ judge_tool (or_else (Dict.get workflow g.workflows) []) (Dict.get tool g.deps)
unfolding check
check_lem tool workflow g enabled = rw (check, enabled) refl

-- Of a tool that the graph has, when the checks are switched on, a check lets it run exactly when each
-- tool that it depends on has a success and no failure on record in the workflow; where the dependency
-- is soft, exactly when each has a success or a failure on record. A tool that the graph does not have
-- runs.
pub check-allowed_iff :
    (tool workflow : String) (g : ToolDependencyGraph)
    → g.config.enabled ≡ true
    → let records = or_else (Dict.get workflow g.workflows) [] in
      let answer = (check tool workflow g).0 in
      ((d : ToolDep)
        → Dict.get tool g.deps ≡ some d
        → (answer.allowed ≡ true) ↔ (
            (x : String)
            → includes x d.depends_on ≡ true
            → IsSatisfied d.hard_dependency records x))
      × (Dict.get tool g.deps ≡ none → answer.allowed ≡ true)
check-allowed_iff tool workflow g enabled = rw (check_lem tool workflow g enabled) (
  λ d e.
      rw e
        (verdict_iff d.hard_dependency (or_else (Dict.get workflow g.workflows) []) d.depends_on),
  λ e. rw e refl,
)
