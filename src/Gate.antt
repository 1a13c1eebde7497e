-- ===== src/Gate.antt =====
-- src/gate.ts: the decision engine. A request is evaluated in one synchronous call, for which the
-- clock is read once. Webhooks are left out; the calls that the server hooks in are outputs, listed in
-- `notices`. The record that `getKey` returns is shared with the store in the source, so a change of
-- it is written back under its key here.
pub mod Checks
pub mod Evaluate
pub mod Topup
pub mod Refund
pub mod Guards
pub mod Usage
pub mod Settle
pub mod Admission
pub mod Verdict
pub mod Decision
pub mod Budget
pub mod Undo
pub mod Batch
pub mod Teamed
pub mod Served
pub mod Listing
use paygate_mcp.Base.{
  ℕ, zero, ◌+◌, ◌*◌, ◌/◌, String, Bool, true, false, ◌&&◌, Option, none, some, List, [], ◌∷◌, ◌++◌,
  ltb, or_else, if◌then◌else◌,
}
use paygate_mcp.Base.Dict
use paygate_mcp.Base.Dict.{Dict}
use paygate_mcp.Base.Text.{take_chars, tool_key}
use paygate_mcp.Types.{QuotaConfig, ApiKeyRecord, Reason, GateDecision}
use paygate_mcp.RateLimiter.{RateLimiter}
use paygate_mcp.Keys.{KeyStore, get_key}
use paygate_mcp.Groups.{ToolPricing, KeyGroup, GroupManager, get_key_group}
use paygate_mcp.Meter.{UsageMeter, UsageEvent, record_event}
use paygate_mcp.Plugins.{Plugin, execute_transform_price}

-- The fields of `PayGateConfig` that the gate reads.
pub record GateConfig : Type 0 where
  pub shadow_mode : Bool
  pub default_credits_per_call : ℕ
  pub tool_pricing : Dict ToolPricing
  pub global_quota : Option QuotaConfig

-- The hooks that the gate calls: plugins, the team check, which answers a reason to deny, and whether
-- a team recorder is there.
pub record Hooks : Type 0 where
  pub plugins : List Plugin
  pub team_checker : Option (String → ℕ → Option String)
  pub has_team_recorder : Bool

-- What the gate tells the hooks that return nothing.
pub data Notice : Type 0 where
  credits_deducted team_usage : String → ℕ → Notice
  auto_topup : String → ℕ → ℕ → Notice

pub record Gate : Type 0 where
  pub config : GateConfig
  pub store : KeyStore
  pub limiter : RateLimiter
  pub groups : Option GroupManager
  pub meter : UsageMeter
  pub notices : List Notice

-- A tool call: `input_bytes` is the length of its arguments as JSON, if it has any, and an absent
-- list of token tools is empty.
pub record Request : Type 0 where
  pub api_key : Option String
  pub tool : String
  pub input_bytes : Option ℕ
  pub client_ip : Option String
  pub token_tools : List String
  pub country : Option String

abbrev pub notify : Notice → Gate → Gate
notify n g = record g { notices = g.notices ++ n ∷ [] }

-- A change of the shared record.
abbrev pub edit : String → (ApiKeyRecord → ApiKeyRecord) → KeyStore → KeyStore
edit key f s = elim (Dict.get key s.keys) [
  | none ↦ s
  | some r ↦ record s { keys = Dict.set key (f r) s.keys }
]

abbrev price_override : String → Option ToolPricing → Option KeyGroup → Option ToolPricing
price_override tool own none = own
price_override tool own (some g) = elim (Dict.get tool g.tool_pricing) [
  | none ↦ own
  | some p ↦ some p
]

-- `Math.ceil(bytes / 1024 * perKb)`
abbrev pub surcharge : ℕ → Option ℕ → ℕ
surcharge per_kb none = 0
surcharge per_kb (some bytes) = if ltb 0 per_kb then (bytes * per_kb + 1023) / 1024 else 0

abbrev pub base_price : ℕ → Option ToolPricing → Option ℕ → ℕ
base_price default none input = default
base_price default (some p) input = p.credits_per_call + surcharge p.credits_per_kb_input input

abbrev group_of : Option String → Option GroupManager → Option KeyGroup × Option GroupManager
group_of none m = (none, m)
group_of (some key) none = (none, none)
group_of (some key) (some m) = let (found, m') = get_key_group key m in (found, some m')

-- The source looks a price up in a plain object; for the names that every object inherits, such as
-- `constructor`, it finds a function, whose price is undefined. These names are not modelled.
unfoldable pub get_tool_price : Hooks → String → Option ℕ → Option String → Gate → ℕ × Gate
get_tool_price hooks tool input key g =
    let (group, m) = group_of key g.groups in
    let own = Dict.get tool g.config.tool_pricing in
    let price =
      base_price g.config.default_credits_per_call (price_override tool own group) input in
    (execute_transform_price hooks.plugins tool price input, record g { groups = m })

-- `recordEvent`: the meter's part.
unfoldable pub record_usage :
    ℕ → String → String → String → ℕ → Bool → Option Reason → Option String → Gate → Gate
record_usage now key name tool charged allowed reason namespace g = record g {
  meter =
      record_event
        (record {
          timestamp = now;
          api_key = take_chars 10 key;
          key_name = name;
          tool = tool;
          credits_charged = charged;
          is_refund = false;
          allowed = allowed;
          deny_reason = reason;
          namespace = namespace;
        })
        g.meter;
}

-- `this.store.getKey(apiKey)?.credits ?? 0`
abbrev pub credits_left : String → ℕ → KeyStore → ℕ
credits_left key now s = elim (get_key key now s) [ none ↦ 0 | some r ↦ r.credits ]
