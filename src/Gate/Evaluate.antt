-- ===== src/Gate/Evaluate.antt =====
-- `Gate.evaluate` of src/gate.ts.
use paygate_mcp.Base.{
  ℕ, String, Bool, true, false, Option, none, some, [], ◌∷◌, ◌++◌, ltb, or_else, if◌then◌else◌,
}
use paygate_mcp.Base.Dict
use paygate_mcp.Base.Text.{given, tool_key}
use paygate_mcp.Types.{
  ApiKeyRecord, Reason, missing_api_key, api_key_expired, invalid_api_key, plugin_says,
  plugin_denied, shadow, GateDecision,
}
use paygate_mcp.RateLimiter
use paygate_mcp.RateLimiter.{RateLimiter}
use paygate_mcp.Quota
use paygate_mcp.Keys.{KeyStore, get_key, is_expired, deduct_credits}
use paygate_mcp.Groups.{GroupManager, ResolvedPolicy, resolve_policy}
use paygate_mcp.Plugins.{GateContext, GateOverride, execute_before_gate, execute_after_gate}
use paygate_mcp.Gate.{
  Gate, Hooks, Request, credits_deducted, team_usage, edit, get_tool_price, record_usage,
  credits_left,
}
use paygate_mcp.Gate.Checks.{Denial, check_access, check_usage, tool_limit}
use paygate_mcp.Gate.Topup.{check_auto_topup}

-- The answer to a denial: in shadow mode the call is let through and nothing is charged.
abbrev pub refuse : Gate → Denial → ℕ → GateDecision
refuse g d remaining = record {
  allowed = g.config.shadow_mode;
  reason = some (if g.config.shadow_mode then shadow d.noted else d.told);
  credits_charged = 0;
  remaining_credits = remaining;
}

abbrev pub denied : ℕ → String → ApiKeyRecord → Request → Denial → Gate → GateDecision × Gate
denied now key r q d g = (
  refuse g d r.credits,
  record_usage now key r.name q.tool 0 false (some d.noted) (some r.namespace) g,
)

abbrev pub denied_unknown : ℕ → String → String → Request → Reason → Gate → GateDecision × Gate
denied_unknown now key name q reason g = (
  refuse g (record { noted = reason; told = reason }) 0,
  record_usage now key name q.tool 0 false (some reason) none g,
)

abbrev record_tool : String → String → ℕ → ℕ → RateLimiter → RateLimiter
record_tool key tool limit now l =
    if ltb 0 limit then RateLimiter.record_custom (tool_key key tool) now l else l

-- Step 9: the charge and the counters.
unfoldable pub charge : Hooks → String → ℕ → ℕ → Request → Gate → Gate
charge hooks key price now q g =
    let limit = tool_limit q.tool g.config.tool_pricing in
    let paid = (deduct_credits key price now g.store).1 in
    let told = g.notices ++ credits_deducted key price ∷ [] in
    record g {
      store = edit key (Quota.record_call price now) paid;
      limiter = record_tool key q.tool limit now (RateLimiter.record_call key now g.limiter);
      notices = if hooks.has_team_recorder then told ++ team_usage key price ∷ [] else told;
    }

abbrev pub context : Request → Option String → Option ApiKeyRecord → GateContext
context q key r = record {
  api_key = key;
  tool_name = q.tool;
  input_bytes = q.input_bytes;
  client_ip = q.client_ip;
  key_record = r;
}

-- The rest of step 9, after the charge.
unfoldable pub allow : Hooks → String → ℕ → ℕ → Request → ApiKeyRecord → Gate → GateDecision × Gate
allow hooks key price now q r g =
    let g1 = (check_auto_topup key now (charge hooks key price now q g)).1 in
    let decision : GateDecision = record {
      allowed = true;
      reason = none;
      credits_charged = price;
      remaining_credits = credits_left key now g1.store;
    } in
    (
      execute_after_gate hooks.plugins (context q (some key) (Dict.get key g1.store.keys)) decision,
      record_usage now key r.name q.tool price true none (some r.namespace) g1,
    )

abbrev pub policy_for :
    String → ApiKeyRecord → Option GroupManager → Option ResolvedPolicy × Option GroupManager
policy_for key r none = (none, none)
policy_for key r (some m) = let (p, m') = resolve_policy key r m in (p, some m')

-- Steps 2b to 9, for a usable key.
unfoldable pub evaluate_key :
    Hooks → String → ℕ → ℕ → Request → ApiKeyRecord → Gate → GateDecision × Gate
evaluate_key hooks key price now q r g =
    let (policy, m) = policy_for key r g.groups in
    let g1 = record g { groups = m } in
    let (stopped, g2) = check_usage hooks key price now q r g1 in
    elim (check_access policy q r) [
      | some d ↦ denied now key r q d (if r.suspended then g else g1)
      | none ↦ elim stopped [
        | some d ↦ denied now key r q d g2
        | none ↦ allow hooks key price now q r g2
      ]
    ]

-- Steps 1 to 9, after the plugins.
unfoldable pub evaluate_request : Hooks → ℕ → ℕ → Request → Gate → GateDecision × Gate
evaluate_request hooks price now q g = elim (given q.api_key) [
  | none ↦ denied_unknown now "none" "" q missing_api_key g
  | some key ↦ elim (get_key key now g.store) [
    | none ↦
        denied_unknown now key "unknown" q
          (if is_expired key now g.store then api_key_expired else invalid_api_key) g
    | some r ↦ evaluate_key hooks key price now q r g
  ]
]

abbrev pub key_record_of : Option String → ℕ → KeyStore → Option ApiKeyRecord
key_record_of none now s = none
key_record_of (some key) now s = get_key key now s

abbrev pub override_reason : Option String → Bool → Option Reason
override_reason none allowed = if allowed then none else some plugin_denied
override_reason (some text) allowed = some (plugin_says text)

abbrev name_of : Option ApiKeyRecord → String
name_of none = ""
name_of (some r) = r.name

abbrev credits_of : Option ApiKeyRecord → ℕ
credits_of none = 0
credits_of (some r) = r.credits

-- A plugin's decision, which `evaluate` returns without the checks and without a charge.
unfoldable pub overridden : Hooks → ℕ → Request → GateOverride → Gate → GateDecision × Gate
overridden hooks now q o g =
    let key = given q.api_key in
    let r = key_record_of key now g.store in
    let reason = override_reason (given o.reason) o.allowed in
    let decision : GateDecision = record {
      allowed = o.allowed;
      reason = reason;
      credits_charged = or_else o.credits_charged 0;
      remaining_credits = credits_of r;
    } in
    (
      execute_after_gate hooks.plugins (context q q.api_key r) decision,
      if o.allowed
          then g
          else record_usage now (or_else key "none") (name_of r) q.tool 0 false reason none g,
    )

unfoldable pub evaluate : Hooks → ℕ → Request → Gate → GateDecision × Gate
evaluate hooks now q g =
    let (price, g1) = get_tool_price hooks q.tool q.input_bytes (given q.api_key) g in
    let r = key_record_of (given q.api_key) now g1.store in
    elim (execute_before_gate hooks.plugins (context q q.api_key r)) [
      | some o ↦ overridden hooks now q o g1
      | none ↦ evaluate_request hooks price now q g1
    ]
