-- ===== src/Plugins.antt =====
-- src/plugin.ts: the hooks of the gate. A plugin is code that the repository does not hold, so its
-- hooks are arbitrary functions: a hook that is missing, throws or answers null is one that answers
-- `none`, or for `after_gate` the decision that it was given. `on_deny` has no answer and is left out.
use paygate_mcp.Base.{ℕ, String, Bool, Option, none, some, List, [], ◌∷◌}
use paygate_mcp.Types.{ApiKeyRecord, GateDecision}

pub record GateContext : Type 0 where
  pub api_key : Option String
  pub tool_name : String
  pub input_bytes : Option ℕ
  pub client_ip : Option String
  pub key_record : Option ApiKeyRecord

pub record GateOverride : Type 0 where
  pub allowed : Bool
  pub reason : Option String
  pub credits_charged : Option ℕ

pub record Plugin : Type 0 where
  pub before_gate : GateContext → Option GateOverride
  pub after_gate : GateContext → GateDecision → GateDecision
  pub transform_price : String → ℕ → Option ℕ → Option ℕ

-- The first answer wins.
unfoldable pub execute_before_gate : List Plugin → GateContext → Option GateOverride
execute_before_gate [] ctx = none
execute_before_gate (p ∷ ps) ctx =
    let rest = execute_before_gate ps ctx in
    elim (p.before_gate ctx) [ none ↦ rest | some o ↦ some o ]

-- Each plugin sees the decision of the one before.
unfoldable pub execute_after_gate : List Plugin → GateContext → GateDecision → GateDecision
execute_after_gate [] ctx d = d
execute_after_gate (p ∷ ps) ctx d = execute_after_gate ps ctx (p.after_gate ctx d)

unfoldable pub execute_transform_price : List Plugin → String → ℕ → Option ℕ → ℕ
execute_transform_price [] tool price input = price
execute_transform_price (p ∷ ps) tool price input =
    let rest = execute_transform_price ps tool price input in
    elim (p.transform_price tool price input) [ none ↦ rest | some q ↦ q ]
