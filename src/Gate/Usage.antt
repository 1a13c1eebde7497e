-- ===== src/Gate/Usage.antt =====
-- The guards of src/gate.ts on rates, funds, quotas and teams against what they are meant to check.
use paygate_mcp.Base.{
  ℕ, ◌+◌, ◌≤◌, ◌<◌, String, ◌≡◌, refl, sym, subst, ap, ◌↔◌, ◌⊎◌, inl, inr, Option, none, some,
  arith, leb, length, Option-cases, Bool-cases,
}
use paygate_mcp.Base.Text.{tool_key}
use paygate_mcp.Types.{QuotaConfig, ApiKeyRecord}
use paygate_mcp.RateLimiter
use paygate_mcp.RateLimiter.{RateLimiter, live, entry_of}
use paygate_mcp.RateLimiter.Window.{live-put_live}
use paygate_mcp.RateLimiter.Decisions.{used}
use paygate_mcp.Quota
use paygate_mcp.Quota.{effective_quota}
use paygate_mcp.Quota.Limits.{IsWithin, check_iff, check-no_quota}
use paygate_mcp.Keys.{KeyStore, has_credits, get_key}
use paygate_mcp.Gate.{Gate, Hooks, Request}
use paygate_mcp.Gate.Checks.{
  check_rate, check_tool_rate, check_funds, check_quota, check_team, check_usage, tool_limit,
}

-- Fewer than `limit` calls in the window, or no limit.
abbrev pub HasRoom : ℕ → String → ℕ → RateLimiter → Type 0
HasRoom limit key now l = (limit ≡ 0) ⊎ (used key now l < limit)

-- The team check of the server, where there is one, has nothing against the call.
abbrev pub TeamOk : Option (String → ℕ → Option String) → String → ℕ → Type 0
TeamOk none key price = Unit {0}
TeamOk (some checker) key price = checker key price ≡ none

-- What a call of this price needs of the limiter, the record's funds and counters, and the team.
pub record IsCovered (hooks : Hooks) (key : String) (price now : ℕ) (q : Request) (r : ApiKeyRecord)
    (g : Gate) : Type 0 where
  pub rate : HasRoom g.limiter.max_calls key now g.limiter
  pub tool_rate :
      HasRoom (tool_limit q.tool g.config.tool_pricing) (tool_key key q.tool) now g.limiter
  pub funds : price ≤ r.credits
  pub spending : 0 < r.spending_limit → r.total_spent + price ≤ r.spending_limit
  pub quota :
      (c : QuotaConfig)
      → effective_quota r.quota g.config.global_quota ≡ some c
      → IsWithin c (Quota.record_call price now (Quota.check price g.config.global_quota now r).1)
  pub team : TeamOk hooks.team_checker key price

-- A check of one key leaves the calls in every other key's window.
pub used-check :
    (j k : String) (now : ℕ) (l : RateLimiter)
    → used k now (RateLimiter.check j now l).1 ≡ used k now l
unfolding RateLimiter.check
used-check j k now l = elim (Bool-cases (leb l.max_calls 0)) [
  | inl off ↦ rw off
  | inr on ↦ rw on (ap length (live-put_live j k now l))
]

check_rate_iff :
    (key : String) (now : ℕ) (l : RateLimiter)
    → ((check_rate key now l).0 ≡ none) ↔ HasRoom l.max_calls key now l
unfolding check_rate RateLimiter.check
check_rate_iff key now l = ground arith

check_tool_rate_iff :
    (key tool : String) (limit now : ℕ) (l : RateLimiter)
    → ((check_tool_rate key tool limit now l).0 ≡ none) ↔ HasRoom limit (tool_key key tool) now l
unfolding check_tool_rate RateLimiter.check_custom
check_tool_rate_iff key tool limit now l = ground arith

pub check_funds_iff :
    (key : String) (price now : ℕ) (r : ApiKeyRecord) (s : KeyStore)
    → get_key key now s ≡ some r
    → (check_funds key price now r s ≡ none)
      ↔ ((price ≤ r.credits) × (0 < r.spending_limit → r.total_spent + price ≤ r.spending_limit))
unfolding check_funds has_credits
check_funds_iff key price now r s found = ground arith

check_quota_iff :
    (key : String) (price : ℕ) (global : Option QuotaConfig) (now : ℕ) (r : ApiKeyRecord)
    (s : KeyStore)
    → ((check_quota key price global now r s).0 ≡ none) ↔ (
        (c : QuotaConfig)
        → effective_quota r.quota global ≡ some c
        → IsWithin c (Quota.record_call price now (Quota.check price global now r).1))
unfolding check_quota
check_quota_iff key price global now r s = elim (Option-cases (effective_quota r.quota global)) [
  | inl e ↦ (λ h c applies. cc, λ f. ground (arith, check-no_quota price global now r e))
  | inr (c, e) ↦ (
    λ h c' applies. (check_iff c' global now r applies price).0 (ground arith),
    λ f. ground (arith, (check_iff c global now r e price).1 (f c e)),
  )
]

check_team_iff :
    (hooks : Hooks) (key : String) (price : ℕ)
    → (check_team hooks key price ≡ none) ↔ TeamOk hooks.team_checker key price
unfolding check_team
check_team_iff hooks key price = on_checker hooks.team_checker
  where
    on_checker :
        (checker : Option (String → ℕ → Option String))
        → (check_team (record hooks { team_checker = checker }) key price ≡ none)
          ↔ TeamOk checker key price
    on_checker none = (λ e. tt, λ u. refl)
    on_checker (some f) = ground arith

module _ (hooks : Hooks) (key : String) (price now : ℕ) (q : Request) (r : ApiKeyRecord) (g : Gate)
    (found : get_key key now g.store ≡ some r) where
  -- The guards of steps 4 to 8b let a call through exactly when it is covered.
  pub check_usage_iff :
      ((check_usage hooks key price now q r g).0 ≡ none) ↔ IsCovered hooks key price now q r g
  unfolding check_usage
  check_usage_iff =
      let limit = tool_limit q.tool g.config.tool_pricing in
      let rate = check_rate_iff key now g.limiter in
      let l1 : RateLimiter = (check_rate key now g.limiter).1 in
      let tool_rate = check_tool_rate_iff key q.tool limit now l1 in
      let same : used (tool_key key q.tool) now l1 ≡ used (tool_key key q.tool) now g.limiter =
        unfold check_rate in used-check key (tool_key key q.tool) now g.limiter in
      let funds = check_funds_iff key price now r g.store found in
      let quota = check_quota_iff key price g.config.global_quota now r g.store in
      let team = check_team_iff hooks key price in
      (
        λ e. record {
          rate = rate.0 (ground arith);
          tool_rate = rw same at (tool_rate.0 (ground arith));
          funds = (funds.0 (ground arith)).0;
          spending = (funds.0 (ground arith)).1;
          quota = quota.0 (ground arith);
          team = team.0 (ground arith);
        },
        λ v. ground (
          arith,
          rate.1 v.rate,
          tool_rate.1 (subst (λ (n : ℕ). (limit ≡ 0) ⊎ (n < limit)) (sym same) v.tool_rate),
          funds.1 (v.funds, v.spending),
          quota.1 v.quota,
          team.1 v.team,
        ),
      )
