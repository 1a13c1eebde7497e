-- ===== src/Gate/Checks.antt =====
-- The guards of `Gate.evaluate` and `checkToolAcl`, `checkIpAllowlist` of src/gate.ts, in their order.
-- A guard answers the reason that it denies for, twice: as the event notes it and as the caller is
-- told it.
use paygate_mcp.Base.{
  ℕ, ◌+◌, ◌-◌, String, Bool, true, false, not, ◌&&◌, ◌||◌, Option, none, some, List, [], ◌∷◌, ltb,
  leb, ◌==◌, length, is_nonempty, map, if◌then◌else◌,
}
use paygate_mcp.Base.Dict
use paygate_mcp.Base.Dict.{Dict}
use paygate_mcp.Base.Text.{includes, given, tool_key}
use paygate_mcp.Ip
use paygate_mcp.Ip.{codes, codes_eq, check_ip_in_list}
use paygate_mcp.Types.{
  QuotaConfig, ApiKeyRecord, Reason, key_suspended, ip_not_allowed, country_not_allowed,
  country_denied, tool_not_allowed, tool_denied, token_tool_not_allowed, limiter, tool_limited,
  insufficient_credits, insufficient_credits_for, spending_limit_exceeded,
  spending_limit_exceeded_by, team_denied,
}
use paygate_mcp.RateLimiter
use paygate_mcp.RateLimiter.{RateLimiter, RateLimitResult}
use paygate_mcp.Quota
use paygate_mcp.Keys.{KeyStore, has_credits}
use paygate_mcp.Groups.{ToolPricing, ResolvedPolicy}
use paygate_mcp.Gate.{Gate, Hooks, Request, edit}

pub record Denial : Type 0 where
  pub noted : Reason
  pub told : Reason

abbrev pub denial : Reason → Denial
denial r = record { noted = r; told = r }

abbrev pub deny_if : Bool → Reason → Option Denial
deny_if true r = some (denial r)
deny_if false r = none

infixr 3 ◌or_next◌
-- The first denial of two guards.
abbrev pub ◌or_next◌ : Option Denial → Option Denial → Option Denial
none or_next d = d
some d or_next e = some d

-- The lists that apply: the group's policy where there is one.
pub record Access : Type 0 where
  pub allowed_tools : List String
  pub denied_tools : List String
  pub ip_allowlist : List String

abbrev pub access_of : ApiKeyRecord → Option ResolvedPolicy → Access
access_of r none = record {
  allowed_tools = r.allowed_tools;
  denied_tools = r.denied_tools;
  ip_allowlist = r.ip_allowlist;
}
access_of r (some p) = record {
  allowed_tools = p.allowed_tools;
  denied_tools = p.denied_tools;
  ip_allowlist = p.ip_allowlist;
}

abbrev gate_entry : String → List ℕ → String → Bool
gate_entry ip trimmed allowed =
    if Ip.has_code b'/' (codes allowed)
    then Ip.any_matches (Ip.trim trimmed) (allowed ∷ [])
    else codes_eq (codes allowed) trimmed

unfoldable pub any_entry : String → List ℕ → List String → Bool
any_entry ip trimmed [] = false
any_entry ip trimmed (allowed ∷ list) = gate_entry ip trimmed allowed || any_entry ip trimmed list

unfoldable pub check_ip_allowlist : String → List String → Bool
unfolding any_entry
check_ip_allowlist ip list =
    if is_nonempty list then any_entry ip (Ip.trim (codes ip)) list else true

unfoldable pub check_ip : Option String → List String → Option Denial
unfolding check_ip_allowlist
check_ip none list = none
check_ip (some ip) list =
    deny_if (is_nonempty list && not (check_ip_allowlist ip list)) (ip_not_allowed ip)

-- `toUpperCase`, on the ASCII letters
abbrev pub upper : List ℕ → List ℕ
upper = map (λ c. if leb b'a' c && leb c b'z' then c - 32 else c)

unfoldable pub includes_codes : List ℕ → List String → Bool
includes_codes cc [] = false
includes_codes cc (x ∷ xs) = codes_eq (codes x) cc || includes_codes cc xs

abbrev country_guard : List ℕ → ApiKeyRecord → Option Denial
country_guard cc r =
    if length cc == 2
    then (deny_if (is_nonempty r.allowed_countries && not (includes_codes cc r.allowed_countries))
          (country_not_allowed cc)
        or_next deny_if (is_nonempty r.denied_countries && includes_codes cc r.denied_countries)
            (country_denied cc))
    else none

unfoldable pub check_country : Option String → ApiKeyRecord → Option Denial
unfolding includes_codes
check_country none r = none
check_country (some country) r = country_guard (upper (codes country)) r

unfoldable pub check_tool_acl : List String → List String → String → Option Denial
check_tool_acl allowed denied tool =
    deny_if (is_nonempty allowed && not (includes tool allowed)) (tool_not_allowed tool)
    or_next deny_if (is_nonempty denied && includes tool denied) (tool_denied tool)

unfoldable pub check_token : List String → String → Option Denial
check_token tools tool =
    deny_if (is_nonempty tools && not (includes tool tools)) (token_tool_not_allowed tool)

-- Steps 2b to 3, which read the record, the policy and the request only.
unfoldable pub check_access : Option ResolvedPolicy → Request → ApiKeyRecord → Option Denial
check_access policy q r =
    let access = access_of r policy in
    deny_if r.suspended key_suspended
    or_next check_ip (given q.client_ip) access.ip_allowlist
    or_next check_country q.country r
    or_next check_tool_acl access.allowed_tools access.denied_tools q.tool
    or_next check_token q.token_tools q.tool

-- A refusal of the limiter comes with its reason.
abbrev pub deny_limit : Bool → Option RateLimiter.LimitReason → Option Denial
deny_limit true reason = none
deny_limit false none = none
deny_limit false (some reason) = some (denial (limiter reason))

-- Step 4.
unfoldable pub check_rate : String → ℕ → RateLimiter → Option Denial × RateLimiter
check_rate key now l =
    let (result, l') = RateLimiter.check key now l in (deny_limit result.allowed result.reason, l')

-- The limit of a tool; 0 where it has none.
abbrev pub tool_limit : String → Dict ToolPricing → ℕ
tool_limit tool pricing = elim (Dict.get tool pricing) [ none ↦ 0 | some p ↦ p.rate_limit_per_min ]

-- Step 5.
unfoldable pub check_tool_rate : String → String → ℕ → ℕ → RateLimiter → Option Denial × RateLimiter
check_tool_rate key tool limit now l =
    let (result, l') = RateLimiter.check_custom (tool_key key tool) limit now l in
    if ltb 0 limit then (deny_if (not result.allowed) (tool_limited tool limit), l') else (none, l)

-- Steps 6 and 7.
unfoldable pub check_funds : String → ℕ → ℕ → ApiKeyRecord → KeyStore → Option Denial
check_funds key price now r s =
    if not (has_credits key price now s)
    then some
        (record { noted = insufficient_credits; told = insufficient_credits_for price r.credits })
    else if ltb 0 r.spending_limit && ltb r.spending_limit (r.total_spent + price)
    then some (record {
      noted = spending_limit_exceeded;
      told = spending_limit_exceeded_by r.spending_limit r.total_spent price;
    })
    else none

-- Step 8. The check resets the shared record.
unfoldable pub check_quota :
    String → ℕ → Option QuotaConfig → ℕ → ApiKeyRecord → KeyStore → Option Denial × KeyStore
check_quota key price global now r s = (
  (elim (Quota.check price global now r).0 [ none ↦ none | some reason ↦ some (denial reason) ]),
  edit key (λ r'. (Quota.check price global now r').1) s,
)

-- Step 8b.
unfoldable pub check_team : Hooks → String → ℕ → Option Denial
check_team hooks key price = elim hooks.team_checker [
  | none ↦ none
  | some checker ↦ elim (checker key price) [
    | none ↦ none
    | some reason ↦ some (denial (team_denied reason))
  ]
]

-- Steps 4 to 8b, each of which is made when the ones before let the call through.
unfoldable pub check_usage :
    Hooks → String → ℕ → ℕ → Request → ApiKeyRecord → Gate → Option Denial × Gate
check_usage hooks key price now q r g =
    let (rate, l1) = check_rate key now g.limiter in
    let (tool_rate, l2) =
      check_tool_rate key q.tool (tool_limit q.tool g.config.tool_pricing) now l1 in
    let (quota, s) = check_quota key price g.config.global_quota now r g.store in
    elim rate [
      | some d ↦ (some d, record g { limiter = l1 })
      | none ↦ elim tool_rate [
        | some d ↦ (some d, record g { limiter = l2 })
        | none ↦ elim (check_funds key price now r g.store) [
          | some d ↦ (some d, record g { limiter = l2 })
          | none ↦ elim quota [
            | some d ↦ (some d, record g { limiter = l2; store = s })
            | none ↦ (check_team hooks key price, record g { limiter = l2; store = s })
          ]
        ]
      ]
    ]
