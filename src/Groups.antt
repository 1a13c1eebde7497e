-- ===== src/Groups.antt =====
-- src/groups.ts: the groups, the group of a key and the policy that results. The description, the tags
-- and the time of creation of a group are left out.
pub mod Admin
pub mod Sound
pub mod Run
use paygate_mcp.Base.{
  ℕ, String, Bool, Option, none, some, List, [], ◌∷◌, ◌++◌, is_nonempty, if◌then◌else◌,
}
use paygate_mcp.Base.Dict
use paygate_mcp.Base.Dict.{Dict}
use paygate_mcp.Base.Text.{includes}
use paygate_mcp.Types.{QuotaConfig, ApiKeyRecord}

-- src/types.ts, `ToolPricing`: an optional number that is not there is 0.
pub record ToolPricing : Type 0 where
  pub credits_per_call : ℕ
  pub rate_limit_per_min : ℕ
  pub credits_per_kb_input : ℕ

pub record KeyGroup : Type 0 where
  pub id : String
  pub name : String
  pub allowed_tools : List String
  pub denied_tools : List String
  pub rate_limit_per_min : ℕ
  pub tool_pricing : Dict ToolPricing
  pub quota : Option QuotaConfig
  pub ip_allowlist : List String
  pub default_credits : ℕ
  pub max_spending_limit : ℕ
  pub active : Bool

pub record GroupManager : Type 0 where
  pub groups : Dict KeyGroup
  pub key_to_group : Dict String

pub record ResolvedPolicy : Type 0 where
  pub allowed_tools : List String
  pub denied_tools : List String
  pub rate_limit_per_min : ℕ
  pub quota : Option QuotaConfig
  pub ip_allowlist : List String
  pub tool_pricing : Dict ToolPricing
  pub max_spending_limit : ℕ

abbrev pub active_only : Option KeyGroup → Option KeyGroup
active_only none = none
active_only (some g) = if g.active then some g else none

-- A key whose group is gone or inactive is taken out of it.
unfoldable pub get_key_group : String → GroupManager → Option KeyGroup × GroupManager
get_key_group key m = elim (Dict.get key m.key_to_group) [
  | none ↦ (none, m)
  | some id ↦ elim (active_only (Dict.get id m.groups)) [
    | none ↦ (none, record m { key_to_group = Dict.delete key m.key_to_group })
    | some g ↦ (some g, m)
  ]
]

-- `Array.from(new Set([...xs, ...ys]))`: the first of equal entries stays.
unfoldable pub dedupe : List String → List String → List String
dedupe seen [] = []
dedupe seen (x ∷ xs) =
    let rest = dedupe (x ∷ seen) xs in
    let skipped = dedupe seen xs in if includes x seen then skipped else x ∷ rest

abbrev pub union : List String → List String → List String
union xs ys = dedupe [] (xs ++ ys)

abbrev own_quota : Option QuotaConfig → Option QuotaConfig → Option QuotaConfig
own_quota none group = group
own_quota (some q) group = some q

unfoldable pub policy_of : ApiKeyRecord → KeyGroup → ResolvedPolicy
policy_of r g = record {
  allowed_tools = if is_nonempty r.allowed_tools then r.allowed_tools else g.allowed_tools;
  denied_tools = union g.denied_tools r.denied_tools;
  rate_limit_per_min = g.rate_limit_per_min;
  quota = own_quota r.quota g.quota;
  ip_allowlist = union g.ip_allowlist r.ip_allowlist;
  tool_pricing = g.tool_pricing;
  max_spending_limit = g.max_spending_limit;
}

unfoldable pub resolve_policy :
    String → ApiKeyRecord → GroupManager → Option ResolvedPolicy × GroupManager
unfolding policy_of
resolve_policy key r m =
    let (found, m') = get_key_group key m in
    (elim found [ none ↦ none | some g ↦ some (policy_of r g) ], m')
