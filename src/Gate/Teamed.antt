-- ===== src/Gate/Teamed.antt =====
-- src/gate.ts with the two hooks by which src/server.ts connects it to src/teams.ts.
use paygate_mcp.Base.{
  ℕ, String, ◌≡◌, ◌⊎◌, refl, ap, ◌∙◌, inl, inr, true, Option, none, some, List, [], ◌∷◌, ◌++◌, ◌+◌,
  arith, Option-cases, Bool-cases, is_some, if◌then◌else◌,
}
use mathlib.Core.List.{append-nil}
use paygate_mcp.Calendar.{day_of}
use paygate_mcp.Base.Text.{given}
use paygate_mcp.Types.{team_denied, AutoTopup, ApiKeyRecord, GateDecision}
use paygate_mcp.Keys.{get_key}
use paygate_mcp.Plugins.{Plugin, execute_before_gate}
use paygate_mcp.Gate.{
  Gate, Hooks, Request, Notice, credits_deducted, team_usage, auto_topup, get_tool_price,
  record_usage,
}
use paygate_mcp.Gate.Checks.{Denial, check_usage, check_team, check_access, ◌or_next◌, denial}
use paygate_mcp.Gate.Topup.{check_auto_topup, topup_key, topup_day}
use paygate_mcp.Gate.Evaluate.{
  charge, allow, evaluate_key, evaluate_request, overridden, evaluate, policy_for, context,
  key_record_of,
}

-- The hooks of the server, with a team checker.
abbrev pub server_hooks : List Plugin → Option (String → ℕ → Option String) → Hooks
server_hooks plugins checker = record {
  plugins = plugins;
  team_checker = checker;
  has_team_recorder = true;
}

-- The calls of `teamRecorder` among the notices.
unfoldable pub team_usages : List Notice → List (String × ℕ)
team_usages [] = []
team_usages (credits_deducted key n ∷ ns) = team_usages ns
team_usages (team_usage key n ∷ ns) = (key, n) ∷ team_usages ns
team_usages (auto_topup key n balance ∷ ns) = team_usages ns

team_usages-append :
    (ms ns : List Notice) → team_usages (ms ++ ns) ≡ team_usages ms ++ team_usages ns
unfolding team_usages
team_usages-append [] ns = refl
team_usages-append (credits_deducted key n ∷ ms) ns = team_usages-append ms ns
team_usages-append (team_usage key n ∷ ms) ns = ap (λ us. (key, n) ∷ us) (team_usages-append ms ns)
team_usages-append (auto_topup key n balance ∷ ms) ns = team_usages-append ms ns

module _ (plugins : List Plugin) (f : String → ℕ → Option String) (key : String) (price now : ℕ)
    (q : Request) (r : ApiKeyRecord) where
  -- The team check comes last.
  check_usage_last :
      (g : Gate)
      → check_usage (server_hooks plugins (some f)) key price now q r g ≡ (
          let (stopped, g') = check_usage (server_hooks plugins none) key price now q r g in
          (stopped or_next check_team (server_hooks plugins (some f)) key price, g'))
  unfolding check_usage check_team
  check_usage_last g = ground arith

  check_usage-notices :
      (checker : Option (String → ℕ → Option String)) (g : Gate)
      → (check_usage (server_hooks plugins checker) key price now q r g).1.notices ≡ g.notices
  unfolding check_usage
  check_usage-notices checker g = ground arith

  told_topup :
      (amount balance : ℕ) (ns : List Notice)
      → team_usages (ns ++ auto_topup key amount balance ∷ []) ≡ team_usages ns
  told_topup amount balance ns =
      team_usages-append ns (auto_topup key amount balance ∷ [])
      ∙ unfold team_usages in append-nil (team_usages ns)

  topup_key-team_usages :
      (t : Option AutoTopup) (r' : ApiKeyRecord) (g : Gate)
      → team_usages (topup_key key now r' t g).1.notices ≡ team_usages g.notices
  topup_key-team_usages none r' g = refl
  topup_key-team_usages (some t) r' g =
      let credits = (topup_day (day_of now) r').credits in
      ground (arith, told_topup t.amount (credits + t.amount) g.notices)

  topup-team_usages :
      (g : Gate) → team_usages (check_auto_topup key now g).1.notices ≡ team_usages g.notices
  unfolding check_auto_topup
  topup-team_usages g = elim (Option-cases (get_key key now g.store)) [
    | inl n ↦ rw (check_auto_topup, n) refl
    | inr (r', e) ↦ rw (check_auto_topup, e) (topup_key-team_usages r'.auto_topup r' g)
  ]

  charge-team_usages :
      (checker : Option (String → ℕ → Option String)) (g : Gate)
      → team_usages (charge (server_hooks plugins checker) key price now q g).notices
        ≡ team_usages g.notices ++ (key, price) ∷ []
  unfolding charge team_usages
  charge-team_usages checker g =
      team_usages-append (g.notices ++ credits_deducted key price ∷ []) (team_usage key price ∷ [])
      ∙ ap (λ us. us ++ (key, price) ∷ [])
          (team_usages-append g.notices (credits_deducted key price ∷ [])
            ∙ append-nil (team_usages g.notices))

  allow-team_usages :
      (checker : Option (String → ℕ → Option String)) (g : Gate)
      → team_usages (allow (server_hooks plugins checker) key price now q r g).1.notices
        ≡ team_usages g.notices ++ (key, price) ∷ []
  unfolding allow record_usage
  allow-team_usages checker g =
      topup-team_usages (charge (server_hooks plugins checker) key price now q g)
      ∙ charge-team_usages checker g

module _ (hooks : Hooks) (key : String) (price now : ℕ) (q : Request) (r : ApiKeyRecord)
    (g : Gate) where
  abbrev access : Option Denial
  access = check_access (policy_for key r g.groups).0 q r

  abbrev usage : Option Denial × Gate
  usage = check_usage hooks key price now q r (record g { groups = (policy_for key r g.groups).1 })

  no_access :
      (d : Denial)
      → access ≡ some d
      → (evaluate_key hooks key price now q r g).1.notices ≡ g.notices
  unfolding evaluate_key record_usage
  no_access d e = rw (evaluate_key, e) (ground arith)

  no_usage :
      (d : Denial)
      → access ≡ none
      → usage.0 ≡ some d
      → (evaluate_key hooks key price now q r g).1.notices ≡ usage.1.notices
  unfolding evaluate_key record_usage
  no_usage d e u = rw (evaluate_key, e, u) refl

  passes :
      access ≡ none
      → usage.0 ≡ none
      → evaluate_key hooks key price now q r g ≡ allow hooks key price now q r usage.1
  unfolding evaluate_key
  passes e u = rw (evaluate_key, e, u) refl

-- What the recorder is told with no checker and with a checker: nothing in both cases, or one call,
-- which the checker can keep from it.
abbrev pub IsFiltered :
    (String → ℕ → Option String) → List (String × ℕ) → List (String × ℕ) → Type 0
IsFiltered f all told =
    ((all ≡ []) × (told ≡ []))
    ⊎ ((key : String) × (price : ℕ) × (all ≡ (key, price) ∷ [])
        × (told ≡ (if is_some (f key price) then [] else (key, price) ∷ [])))

module _ (plugins : List Plugin) (f : String → ℕ → Option String) (now : ℕ) (q : Request) where
  abbrev free : Hooks
  free = server_hooks plugins none

  abbrev checked : Hooks
  checked = server_hooks plugins (some f)

  -- With what the team check answers, as the last of the checks.
  module _ (key : String) (price : ℕ) (r : ApiKeyRecord) (g : Gate)
      (quiet : team_usages g.notices ≡ []) where
    abbrev left : Gate
    left = (usage free key price now q r g).1

    left-quiet : team_usages left.notices ≡ []
    left-quiet =
        ap team_usages (
          check_usage-notices plugins f key price now q r none
            (record g { groups = (policy_for key r g.groups).1 }))
        ∙ quiet

    same_usage :
        usage checked key price now q r g
        ≡ ((usage free key price now q r g).0 or_next check_team checked key price, left)
    same_usage =
        check_usage_last plugins f key price now q r
          (record g { groups = (policy_for key r g.groups).1 })

    allowed_usages :
        (checker : Option (String → ℕ → Option String))
        → team_usages (allow (server_hooks plugins checker) key price now q r left).1.notices
          ≡ (key, price) ∷ []
    allowed_usages checker =
        allow-team_usages plugins f key price now q r checker left
        ∙ ap (λ us. us ++ (key, price) ∷ []) left-quiet

    checked-quiet : team_usages (usage checked key price now q r g).1.notices ≡ []
    checked-quiet =
        ap (λ (x : Option Denial × Gate). team_usages x.1.notices) same_usage ∙ left-quiet

    verdict :
        (usage free key price now q r g).0 ≡ none
        → (usage checked key price now q r g).0 ≡ check_team checked key price
    verdict u = ap (λ (x : Option Denial × Gate). x.0) same_usage ∙ rw u refl

    told :
        access checked key price now q r g ≡ none
        → (usage free key price now q r g).0 ≡ none
        → team_usages (evaluate_key checked key price now q r g).1.notices
          ≡ (if is_some (f key price) then [] else (key, price) ∷ [])
    unfolding check_team
    told e u = elim (Option-cases (f key price)) [
      | inl n ↦ rw n (
          ap (λ (x : GateDecision × Gate). team_usages x.1.notices)
            (passes checked key price now q r g e (verdict u ∙ rw (check_team, n) refl))
          ∙ ap
              (λ (x : Option Denial × Gate).
                team_usages (allow checked key price now q r x.1).1.notices)
              same_usage
          ∙ allowed_usages (some f))
      | inr (reason, n) ↦ rw n (
          ap team_usages (
            no_usage checked key price now q r g (denial (team_denied reason)) e
              (verdict u ∙ rw (check_team, n) refl))
          ∙ checked-quiet)
    ]

    key-IsFiltered :
        IsFiltered f
          (team_usages (evaluate_key free key price now q r g).1.notices)
          (team_usages (evaluate_key checked key price now q r g).1.notices)
    key-IsFiltered = elim (Option-cases (access checked key price now q r g)) [
      | inr (d, e) ↦ inl (
        ap team_usages (no_access free key price now q r g d e) ∙ quiet,
        ap team_usages (no_access checked key price now q r g d e) ∙ quiet,
      )
      | inl e ↦ elim (Option-cases (usage free key price now q r g).0) [
        | inr (d, u) ↦ inl (
          ap team_usages (no_usage free key price now q r g d e u) ∙ left-quiet,
          ap team_usages (
                no_usage checked key price now q r g d e
                  (ap (λ (x : Option Denial × Gate). x.0) same_usage ∙ rw u refl))
              ∙ checked-quiet,
        )
        | inl u ↦ inr (
          key,
          price,
          ap (λ (x : GateDecision × Gate). team_usages x.1.notices)
                (passes free key price now q r g e u)
              ∙ allowed_usages none,
          told e u,
        )
      ]
    ]

  request-IsFiltered :
      (price : ℕ) (g : Gate)
      → team_usages g.notices ≡ []
      → IsFiltered f
          (team_usages (evaluate_request free price now q g).1.notices)
          (team_usages (evaluate_request checked price now q g).1.notices)
  unfolding evaluate_request record_usage
  request-IsFiltered price g quiet = elim (Option-cases (given q.api_key)) [
    | inl n ↦ rw (evaluate_request, n) (inl (quiet, quiet))
    | inr (key, k) ↦ elim (Option-cases (get_key key now g.store)) [
      | inl n ↦ rw (evaluate_request, k, n) (inl (quiet, quiet))
      | inr (r, e) ↦ rw (evaluate_request, k, e) (key-IsFiltered key price r g quiet)
    ]
  ]

  -- The team checker keeps from the team recorder exactly the call that it refuses. Whatever the request,
  -- the plugins and the state, the recorder is told what it would be told without a checker, one call at
  -- most, unless the checker has a reason against that call.
  pub evaluate-IsFiltered :
      (g : Gate)
      → team_usages g.notices ≡ []
      → IsFiltered f
          (team_usages (evaluate free now q g).1.notices)
          (team_usages (evaluate checked now q g).1.notices)
  unfolding evaluate overridden record_usage get_tool_price
  evaluate-IsFiltered g quiet =
      elim (Option-cases (
        execute_before_gate plugins
          (context q q.api_key (key_record_of (given q.api_key) now g.store)))) [
            | inl n ↦
                rw (evaluate, n)
                  (request-IsFiltered
                    (get_tool_price free q.tool q.input_bytes (given q.api_key) g).0
                    (get_tool_price free q.tool q.input_bytes (given q.api_key) g).1 quiet)
            | inr (o, e) ↦ elim (Bool-cases o.allowed) [
              | inl a ↦ rw (evaluate, e, a) (inl (quiet, quiet))
              | inr a ↦ rw (evaluate, e, a) (inl (quiet, quiet))
            ]
          ]
