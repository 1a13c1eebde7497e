-- ===== src/Gate/Verdict.antt =====
-- `Gate.evaluate` of src/gate.ts: which calls it lets through, and what any call leaves in the store.
use paygate_mcp.Base.{
  ℕ, String, ◌≡◌, refl, sym, subst, inl, inr, Option, none, some, arith, Option-cases,
}
use paygate_mcp.Base.Text.{given}
use paygate_mcp.Types.{ApiKeyRecord, GateDecision}
use paygate_mcp.Keys.{get_key}
use paygate_mcp.Plugins.{execute_before_gate, GateOverride}
use paygate_mcp.Gate.{Gate, Hooks, Request, get_tool_price, record_usage}
use paygate_mcp.Gate.Evaluate.{
  evaluate_key, evaluate_request, overridden, evaluate, context, key_record_of,
}
use paygate_mcp.Gate.Admission.{
  price_of, Outcome, untouched, reset, paid, IsCovered-groups, evaluate_key-store,
}

module _ (hooks : Hooks) (now : ℕ) (q : Request) (g : Gate) where
  abbrev pub priced : Gate
  priced = (get_tool_price hooks q.tool q.input_bytes (given q.api_key) g).1

  priced_lem : priced ≡ record g { groups = priced.groups }
  unfolding get_tool_price
  priced_lem = refl

  abbrev pub answer : Option GateOverride
  answer =
      execute_before_gate hooks.plugins
        (context q q.api_key (key_record_of (given q.api_key) now priced.store))

  pub on_override :
      (o : GateOverride) → answer ≡ some o → (evaluate hooks now q g).1.store ≡ g.store
  unfolding evaluate overridden record_usage get_tool_price
  on_override o e = ground arith

  pub on_request :
      answer ≡ none
      → evaluate hooks now q g ≡ evaluate_request hooks (price_of hooks q g) now q priced
  unfolding evaluate
  on_request e = rw (evaluate, e)

  pub request_unknown :
      (price : ℕ) (g1 : Gate)
      → key_record_of (given q.api_key) now g1.store ≡ none
      → ((evaluate_request hooks price now q g1).1.store ≡ g1.store)
        × ((evaluate_request hooks price now q g1).0.allowed ≡ g1.config.shadow_mode)
        × ((evaluate_request hooks price now q g1).0.credits_charged ≡ 0)
  unfolding evaluate_request record_usage
  request_unknown price g1 e = elim (Option-cases (given q.api_key)) [
    | inl n ↦ ground arith
    | inr (key, k) ↦ ground arith
  ]

  pub request_known :
      (price : ℕ) (g1 : Gate) (key : String) (r : ApiKeyRecord)
      → given q.api_key ≡ some key
      → get_key key now g1.store ≡ some r
      → evaluate_request hooks price now q g1 ≡ evaluate_key hooks key price now q r g1
  unfolding evaluate_request
  request_known price g1 key r k found = ground arith

  known :
      (r : ApiKeyRecord)
      → key_record_of (given q.api_key) now priced.store ≡ some r
      → (key : String) × (given q.api_key ≡ some key) × (get_key key now priced.store ≡ some r)
  known r e = elim (Option-cases (given q.api_key)) [
    | inl n ↦ ground arith
    | inr (key, k) ↦ (key, k, ground arith)
  ]

  -- For a known key: the three outcomes.
  known-Outcome :
      (key : String) (r : ApiKeyRecord)
      → given q.api_key ≡ some key
      → get_key key now priced.store ≡ some r
      → Outcome hooks now q g (evaluate_request hooks (price_of hooks q g) now q priced).1.store
  unfolding get_tool_price
  known-Outcome key r k found =
      let same = request_known (price_of hooks q g) priced key r k found in
      subst (λ (x : GateDecision × Gate). Outcome hooks now q g x.1.store) (sym same)
        (elim (evaluate_key-store hooks key (price_of hooks q g) now q r priced found) [
          | inl e ↦ untouched e
          | inr (inl h) ↦ reset key r found h
          | inr (inr (p, c, h)) ↦
              paid key r found p
                ((IsCovered-groups hooks key (price_of hooks q g) now q r g priced.groups).0 c) h
        ])

  pub evaluate-Outcome : Outcome hooks now q g (evaluate hooks now q g).1.store
  unfolding get_tool_price
  evaluate-Outcome = elim (Option-cases answer) [
    | inr (o, e) ↦ untouched (on_override o e)
    | inl e ↦
        subst (λ (x : GateDecision × Gate). Outcome hooks now q g x.1.store) (sym (on_request e))
          (elim (Option-cases (key_record_of (given q.api_key) now priced.store)) [
            | inl n ↦ untouched (request_unknown (price_of hooks q g) priced n).0
            | inr (r, f) ↦ let k = known r f in known-Outcome k.0 r k.1 k.2
          ])
  ]
