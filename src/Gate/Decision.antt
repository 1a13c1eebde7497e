-- ===== src/Gate/Decision.antt =====
-- The verdict of `Gate.evaluate` of src/gate.ts where no plugin takes part.
use paygate_mcp.Base.{
  ℕ, ◌<◌, String, ◌≡◌, refl, sym, subst, ap, ◌∙◌, ◌↔◌, ◌⊎◌, inl, inr, true, false, Option, none,
  some, [], arith, Option-cases,
}
use paygate_mcp.Base.Text.{given}
use paygate_mcp.Types.{ApiKeyRecord, GateDecision}
use paygate_mcp.Keys.{get_key}
use paygate_mcp.Plugins.{execute_before_gate, execute_after_gate}
use paygate_mcp.Gate.{Gate, Hooks, Request, get_tool_price}
use paygate_mcp.Gate.Checks.{Denial, check_access, check_usage}
use paygate_mcp.Gate.Evaluate.{allow, evaluate_key, evaluate, policy_for}
use paygate_mcp.Gate.Guards.{IsPermitted, check_access_iff}
use paygate_mcp.Gate.Usage.{IsCovered, check_usage_iff}
use paygate_mcp.Gate.Settle.{Holds, settled}
use paygate_mcp.Gate.Admission.{
  price_of, policy_of, IsCovered-groups, left, on_access, on_usage, on_pass, settled-Holds,
  check_usage-store_passed,
}
use paygate_mcp.Gate.Verdict.{priced, on_request, request_known}

-- A key that the store knows, and no plugins.
module _ (hooks : Hooks) (now : ℕ) (q : Request) (g : Gate) (key : String) (r : ApiKeyRecord)
    (plain : hooks.plugins ≡ []) (named : given q.api_key ≡ some key)
    (found : get_key key now g.store ≡ some r) where
  abbrev price : ℕ
  price = price_of hooks q g

  abbrev gate : Gate
  gate = priced hooks now q g

  abbrev access : Option Denial
  access = check_access (policy_of hooks key r q g) q r

  abbrev usage : Option Denial
  usage =
      (check_usage hooks key price now q r
        (record gate { groups = (policy_for key r gate.groups).1 })).0

  found1 : get_key key now gate.store ≡ some r
  unfolding get_tool_price
  found1 = found

  runs : evaluate hooks now q g ≡ evaluate_key hooks key price now q r gate
  unfolding get_tool_price
  runs =
      on_request hooks now q g (rw plain (unfold execute_before_gate in refl))
      ∙ request_known hooks now q g price gate key r named found1

  -- What the guards answer, all together.
  guards_iff :
      ((access ≡ none) × (usage ≡ none))
      ↔ (IsPermitted (policy_of hooks key r q g) q r × IsCovered hooks key price now q r g)
  unfolding get_tool_price
  guards_iff =
      let a = check_access_iff (policy_of hooks key r q g) q r in
      let g1 : Gate = record gate { groups = (policy_for key r gate.groups).1 } in
      let u = check_usage_iff hooks key price now q r g1 found in
      let c = IsCovered-groups hooks key price now q r g g1.groups in
      (λ h. (a.0 h.0, c.0 (u.0 h.1)), λ v. (a.1 v.0, u.1 (c.1 v.1)))

  on_allowed :
      IsPermitted (policy_of hooks key r q g) q r
      → IsCovered hooks key price now q r g
      → evaluate hooks now q g
        ≡ allow hooks key price now q r (left hooks key price now q r gate found1)
  unfolding get_tool_price
  on_allowed p c =
      let ok = guards_iff.1 (p, c) in runs ∙ on_pass hooks key price now q r gate found1 ok.0 ok.1

  allow_decision :
      (g2 : Gate)
      → ((allow hooks key price now q r g2).0.allowed ≡ true)
        × ((allow hooks key price now q r g2).0.reason ≡ none)
        × ((allow hooks key price now q r g2).0.credits_charged ≡ price)
  unfolding allow execute_after_gate
  allow_decision g2 = (rw plain refl, rw plain refl, rw plain refl)

  -- A denial answers as `refuse` does.
  on_denied :
      (access ≡ none) ⊎ ((d : Denial) × (access ≡ some d))
      → (usage ≡ none) ⊎ ((d : Denial) × (usage ≡ some d))
      → ((access ≡ none) × (usage ≡ none))
        ⊎ (((evaluate hooks now q g).0.allowed ≡ g.config.shadow_mode)
            × ((evaluate hooks now q g).0.credits_charged ≡ 0))
  unfolding get_tool_price
  on_denied (inl a) (inl u) = inl (a, u)
  on_denied (inl a) (inr (d, u)) =
      let e = (on_usage hooks key price now q r gate found1 d a u).1 in
      inr (
        ap (λ (x : GateDecision × Gate). x.0.allowed) runs ∙ ap (λ (x : GateDecision). x.allowed) e,
        ap (λ (x : GateDecision × Gate). x.0.credits_charged) runs
            ∙ ap (λ (x : GateDecision). x.credits_charged) e,
      )
  on_denied (inr (d, a)) u =
      let e = (on_access hooks key price now q r gate found1 d a).1 in
      inr (
        ap (λ (x : GateDecision × Gate). x.0.allowed) runs ∙ ap (λ (x : GateDecision). x.allowed) e,
        ap (λ (x : GateDecision × Gate). x.0.credits_charged) runs
            ∙ ap (λ (x : GateDecision). x.credits_charged) e,
      )

  -- With shadow mode off, a call of a key that the store holds active and unexpired, without plugins,
  -- is let through exactly when access, tool and country lists permit it, both rate windows have room,
  -- credits, spending limit and quota cover its price, and the team has nothing against it.
  pub evaluate_allows_iff :
      g.config.shadow_mode ≡ false
      → ((evaluate hooks now q g).0.allowed ≡ true)
        ↔ (IsPermitted (policy_of hooks key r q g) q r × IsCovered hooks key price now q r g)
  evaluate_allows_iff off =
      let runs_to : IsPermitted (policy_of hooks key r q g) q r
            × IsCovered hooks key price now q r g
          → (evaluate hooks now q g).0.allowed ≡ true =
        λ v.
          ap (λ (x : GateDecision × Gate). x.0.allowed) (on_allowed v.0 v.1)
          ∙ (allow_decision (left hooks key price now q r gate found1)).0 in
      elim (on_denied (Option-cases access) (Option-cases usage)) [
        | inl ok ↦ (λ e. guards_iff.0 ok, runs_to)
        | inr fails ↦ (λ e. cc, runs_to)
      ]

  -- In shadow mode or not, a call of a key that the store holds active and unexpired, without
  -- plugins, is charged a price only if the lists permit it and rates, funds, quota and team cover it.
  pub evaluate_charges_only :
      0 < (evaluate hooks now q g).0.credits_charged
      → IsPermitted (policy_of hooks key r q g) q r × IsCovered hooks key price now q r g
  evaluate_charges_only charged = elim (on_denied (Option-cases access) (Option-cases usage)) [
    | inl ok ↦ guards_iff.0 ok
    | inr fails ↦ let free = fails.1 in ground arith
  ]

  -- Without plugins, a call of a key that the store holds active and unexpired, that the lists permit
  -- and that rates, funds, quota and team cover, is let through without a reason, is charged the
  -- tool's price, and leaves the store as it was, but for the caller's record: that one is charged and
  -- counted once, and topped up if it falls below its threshold and the day's top-ups are not used up.
  pub evaluate_settles :
      IsPermitted (policy_of hooks key r q g) q r
      → IsCovered hooks key price now q r g
      → ((evaluate hooks now q g).0.allowed ≡ true)
        × ((evaluate hooks now q g).0.reason ≡ none)
        × ((evaluate hooks now q g).0.credits_charged ≡ price)
        × Holds key (settled price now r) g.store (evaluate hooks now q g).1.store
  unfolding get_tool_price
  evaluate_settles p c =
      let same = on_allowed p c in
      let ok = guards_iff.1 (p, c) in
      let g2 : Gate = left hooks key price now q r gate found1 in
      let d = allow_decision g2 in
      (
        ap (λ (x : GateDecision × Gate). x.0.allowed) same ∙ d.0,
        ap (λ (x : GateDecision × Gate). x.0.reason) same ∙ d.1,
        ap (λ (x : GateDecision × Gate). x.0.credits_charged) same ∙ d.2,
        subst (λ (x : GateDecision × Gate). Holds key (settled price now r) g.store x.1.store)
            (sym same)
            (settled-Holds hooks key price now q r gate found1 g2 r
              (check_usage-store_passed hooks key price now q r
                (record gate { groups = (policy_for key r gate.groups).1 }) ok.1)
              c.funds),
      )
