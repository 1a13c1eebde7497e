-- ===== src/Gate/Admission.antt =====
-- What `Gate.evaluate` of src/gate.ts decides and what it does to the key store, as a whole.
use paygate_mcp.Base.{
  ℕ, ◌≤◌, String, ◌≡◌, sym, subst, ◌∙◌, ◌↔◌, ◌⊎◌, inl, inr, Option, none, some, arith, Option-cases,
}
use paygate_mcp.Base.Text.{given}
use paygate_mcp.Types.{ApiKeyRecord, GateDecision}
use paygate_mcp.Quota
use paygate_mcp.Keys.{KeyStore, get_key}
use paygate_mcp.Groups.{GroupManager, ResolvedPolicy}
use paygate_mcp.Gate.{Gate, Hooks, Request, edit, get_tool_price, record_usage}
use paygate_mcp.Gate.Checks.{Denial, check_access, check_usage, check_quota}
use paygate_mcp.Gate.Evaluate.{allow, evaluate_key, policy_for, refuse}
use paygate_mcp.Gate.Guards.{IsPermitted, check_access_iff}
use paygate_mcp.Gate.Usage.{IsCovered, check_usage_iff}
use paygate_mcp.Gate.Settle.{
  Holds, Holds-edit, Holds-trans, Holds-get_key, get_key-get, fresh, settled, settled-fresh,
  allow-Holds,
}

-- The price of a call and the policy that it meets.
abbrev pub price_of : Hooks → Request → Gate → ℕ
price_of hooks q g = (get_tool_price hooks q.tool q.input_bytes (given q.api_key) g).0

abbrev pub policy_of : Hooks → String → ApiKeyRecord → Request → Gate → Option ResolvedPolicy
policy_of hooks key r q g =
    (policy_for key r (get_tool_price hooks q.tool q.input_bytes (given q.api_key) g).1.groups).0

-- What an evaluation may do to the store: nothing, the quota's reset of one record, or the settlement
-- of a call that is permitted and covered.
pub data Outcome (hooks : Hooks) (now : ℕ) (q : Request) (g : Gate) (s : KeyStore) : Type 0 where
  untouched : s ≡ g.store → Outcome hooks now q g s
  reset :
      (key : String) (r : ApiKeyRecord)
      → get_key key now g.store ≡ some r
      → Holds key (fresh now r) g.store s
      → Outcome hooks now q g s
  paid :
      (key : String) (r : ApiKeyRecord)
      → get_key key now g.store ≡ some r
      → IsPermitted (policy_of hooks key r q g) q r
      → IsCovered hooks key (price_of hooks q g) now q r g
      → Holds key (settled (price_of hooks q g) now r) g.store s
      → Outcome hooks now q g s

-- The store after the checks of usage: the record is reset when the quota check is reached.
pub check_usage-store :
    (hooks : Hooks) (key : String) (price now : ℕ) (q : Request) (r : ApiKeyRecord) (g : Gate)
    → ((check_usage hooks key price now q r g).1.store ≡ g.store)
      ⊎ ((check_usage hooks key price now q r g).1.store ≡ edit key (fresh now) g.store)
unfolding check_usage check_quota Quota.check
check_usage-store hooks key price now q r g = ground arith

pub check_usage-store_passed :
    (hooks : Hooks) (key : String) (price now : ℕ) (q : Request) (r : ApiKeyRecord) (g : Gate)
    → (check_usage hooks key price now q r g).0 ≡ none
    → (check_usage hooks key price now q r g).1.store ≡ edit key (fresh now) g.store
unfolding check_usage check_quota Quota.check
check_usage-store_passed hooks key price now q r g e = ground arith

pub IsCovered-groups :
    (hooks : Hooks) (key : String) (price now : ℕ) (q : Request) (r : ApiKeyRecord) (g : Gate)
    (m : Option GroupManager)
    → IsCovered hooks key price now q r (record g { groups = m })
      ↔ IsCovered hooks key price now q r g
IsCovered-groups hooks key price now q r g m = (
  λ v. record {
    rate = v.rate;
    tool_rate = v.tool_rate;
    funds = v.funds;
    spending = v.spending;
    quota = v.quota;
    team = v.team;
  },
  λ v. record {
    rate = v.rate;
    tool_rate = v.tool_rate;
    funds = v.funds;
    spending = v.spending;
    quota = v.quota;
    team = v.team;
  },
)

module _ (hooks : Hooks) (key : String) (price now : ℕ) (q : Request) (r : ApiKeyRecord) (g : Gate)
    (found : get_key key now g.store ≡ some r) where
  reset-Holds :
      (s : KeyStore) → s ≡ edit key (fresh now) g.store → Holds key (fresh now r) g.store s
  reset-Holds s e =
      subst (Holds key (fresh now r) g.store) (sym e)
        (Holds-edit key (fresh now) r g.store (get_key-get key now g.store found))

  pub settled-Holds :
      (g2 : Gate) (r0 : ApiKeyRecord)
      → g2.store ≡ edit key (fresh now) g.store
      → price ≤ r.credits
      → Holds key (settled price now r) g.store (allow hooks key price now q r0 g2).1.store
  unfolding Quota.reset_if_needed Quota.reset_day Quota.reset_month
  settled-Holds g2 r0 e enough =
      let h = reset-Holds g2.store e in
      let found2 =
        Holds-get_key key now r (fresh now r) g.store g2.store h found (ground arith)
          (ground arith) in
      Holds-trans key (fresh now r) (settled price now r) g.store g2.store
        (allow hooks key price now q r0 g2).1.store h
        (subst (λ x. Holds key x g2.store (allow hooks key price now q r0 g2).1.store)
          (settled-fresh price now r)
          (allow-Holds hooks key price now q g2 (fresh now r) r0 found2 (ground arith)))

  -- The gate that the checks of usage meet, and the one that they leave.
  abbrev pub seen : Gate
  seen = record g { groups = (policy_for key r g.groups).1 }

  abbrev pub left : Gate
  left = (check_usage hooks key price now q r seen).1

  abbrev pub policy : Option ResolvedPolicy
  policy = (policy_for key r g.groups).0

  abbrev pub result : GateDecision × Gate
  result = evaluate_key hooks key price now q r g

  pub on_access :
      (d : Denial)
      → check_access policy q r ≡ some d
      → (result.1.store ≡ g.store) × (result.0 ≡ refuse g d r.credits)
  unfolding evaluate_key record_usage
  on_access d a = ground arith

  pub on_usage :
      (d : Denial)
      → check_access policy q r ≡ none
      → (check_usage hooks key price now q r seen).0 ≡ some d
      → (result.1.store ≡ left.store) × (result.0 ≡ refuse g d r.credits)
  unfolding evaluate_key record_usage check_usage
  on_usage d a u = ground arith

  pub on_pass :
      check_access policy q r ≡ none
      → (check_usage hooks key price now q r seen).0 ≡ none
      → result ≡ allow hooks key price now q r left
  unfolding evaluate_key
  on_pass a u = ground arith

  -- One of the three outcomes, in terms of the gate after the pricing.
  pub evaluate_key-store :
      (result.1.store ≡ g.store)
      ⊎ (Holds key (fresh now r) g.store result.1.store
          ⊎ (IsPermitted policy q r
              × IsCovered hooks key price now q r g
              × Holds key (settled price now r) g.store result.1.store))
  evaluate_key-store = elim (Option-cases (check_access policy q r)) [
    | inr (d, a) ↦ inl (on_access d a).0
    | inl a ↦ elim (Option-cases (check_usage hooks key price now q r seen).0) [
      | inr (d, u) ↦ elim (check_usage-store hooks key price now q r seen) [
        | inl e ↦ inl ((on_usage d a u).0 ∙ e)
        | inr e ↦ inr (inl (reset-Holds result.1.store ((on_usage d a u).0 ∙ e)))
      ]
      | inl u ↦
          let covered = (check_usage_iff hooks key price now q r seen found).0 u in
          inr (
            inr (
              (check_access_iff policy q r).0 a,
              (IsCovered-groups hooks key price now q r g seen.groups).0 covered,
              subst (λ (x : GateDecision × Gate). Holds key (settled price now r) g.store x.1.store)
                  (sym (on_pass a u))
                  (settled-Holds left r (check_usage-store_passed hooks key price now q r seen u)
                    covered.funds),
            ))
    ]
  ]
