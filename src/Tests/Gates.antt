-- ===== src/Tests/Gates.antt =====
-- The gate's results on a call of the tool "search" for five credits.
use paygate_mcp.Base.{◌<◌, ◌↔◌, ◌≡◌, refl, true, none, some, [], ◌∷◌, or_else, arith}
use paygate_mcp.Base.Dict
use paygate_mcp.Base.Text.{includes, given, tool_key}
use paygate_mcp.RateLimiter
use paygate_mcp.Quota
use paygate_mcp.Ip
use paygate_mcp.Types.{ApiKeyRecord}
use paygate_mcp.Keys.{get_key, has_credits}
use paygate_mcp.Plugins
use paygate_mcp.Gate.{get_tool_price}
use paygate_mcp.Gate.Checks
use paygate_mcp.Gate.Checks.{
  check_access, check_usage, check_ip_allowlist, check_tool_acl, check_token, access_of,
}
use paygate_mcp.Gate.Evaluate.{evaluate, charge, policy_for}
use paygate_mcp.Gate.Refund.{refund}
use paygate_mcp.Gate.Guards.{IsPermitted, check_access_iff}
use paygate_mcp.Gate.Usage.{IsCovered, check_usage_iff}
use paygate_mcp.Gate.Settle.{Holds, settled}
use paygate_mcp.Gate.Admission.{price_of, policy_of}
use paygate_mcp.Gate.Decision.{evaluate_allows_iff, evaluate_charges_only, evaluate_settles}
use paygate_mcp.Gate.Budget.{AllLawful, IsLawful, evaluate-AllLawful}
use paygate_mcp.Gate.Undo.{refund-charge, after_refund}
use paygate_mcp.Gate.Listing.{filter_tools_for_key, filter_tools_iff}
use paygate_mcp.Tests.{
  noon, alice, bob, store, gate, hooks, search, alice_found, alice_named, small_quota,
}

price_of-search : price_of hooks search gate ≡ 5
unfolding get_tool_price Dict.get Plugins.execute_transform_price given
price_of-search = refl

access_passes : check_access (policy_of hooks "pg_a" alice search gate) search alice ≡ none
unfolding check_access get_tool_price given includes Checks.check_ip Ip.check_ip_in_list
    Checks.check_country Checks.check_tool_acl Ip.has_code Ip.match_cidr Ip.trim_end
    Checks.check_token
access_passes = refl

usage_passes :
    (check_usage hooks "pg_a" (price_of hooks search gate) noon search alice gate).0 ≡ none
unfolding check_usage get_tool_price given tool_key Checks.check_rate Checks.check_tool_rate
    Checks.check_funds Checks.check_quota RateLimiter.check RateLimiter.create RateLimiter.entry_of
    Dict.get RateLimiter.check_custom Dict.set has_credits get_key Plugins.execute_transform_price
    Quota.check Quota.reset_if_needed paygate_mcp.Calendar.day_of paygate_mcp.Calendar.month_of
    paygate_mcp.Calendar.month_of_day Checks.check_team
usage_passes = refl

permitted : IsPermitted (policy_of hooks "pg_a" alice search gate) search alice
permitted =
    (check_access_iff (policy_of hooks "pg_a" alice search gate) search alice).0 access_passes

covered : IsCovered hooks "pg_a" (price_of hooks search gate) noon search alice gate
covered =
    (check_usage_iff hooks "pg_a" (price_of hooks search gate) noon search alice gate alice_found).0
      usage_passes

evaluate_allows_iff_example : ((evaluate hooks noon search gate).0.allowed ≡ true) ↔ (
    IsPermitted (policy_of hooks "pg_a" alice search gate) search alice
    × IsCovered hooks "pg_a" (price_of hooks search gate) noon search alice gate)
evaluate_allows_iff_example =
    evaluate_allows_iff hooks noon search gate "pg_a" alice refl alice_named alice_found refl

evaluate_settles_example :
    ((evaluate hooks noon search gate).0.allowed ≡ true)
    × ((evaluate hooks noon search gate).0.reason ≡ none)
    × ((evaluate hooks noon search gate).0.credits_charged ≡ price_of hooks search gate)
    × Holds "pg_a"
        (settled (price_of hooks search gate) noon alice)
        gate.store
        (evaluate hooks noon search gate).1.store
evaluate_settles_example =
    evaluate_settles hooks noon search gate "pg_a" alice refl alice_named alice_found permitted
      covered

charged : 0 < (evaluate hooks noon search gate).0.credits_charged
charged =
    let r =
      evaluate_settles hooks noon search gate "pg_a" alice refl alice_named alice_found permitted
        covered in
    ground (arith, r.2, price_of-search)

evaluate_charges_only_example :
    IsPermitted (policy_of hooks "pg_a" alice search gate) search alice
    × IsCovered hooks "pg_a" (price_of hooks search gate) noon search alice gate
evaluate_charges_only_example =
    evaluate_charges_only hooks noon search gate "pg_a" alice refl alice_named alice_found charged

lawful :
    (r : ApiKeyRecord)
    → r.spending_limit ≡ 30
    → r.total_spent ≡ 8
    → r.quota ≡ some small_quota
    → r.quota_daily_calls ≡ 0
    → r.quota_monthly_calls ≡ 0
    → r.quota_daily_credits ≡ 0
    → r.quota_monthly_credits ≡ 0
    → IsLawful none r
lawful r l t q dc mc dk mk = record { spending = ground arith; quota = λ c e. ground arith }

pub store_lawful : AllLawful none store
unfolding Dict.get
store_lawful j r e = ground (arith, lawful alice, lawful bob)

evaluate-AllLawful_example : AllLawful none (evaluate hooks noon search gate).1.store
evaluate-AllLawful_example = evaluate-AllLawful hooks noon search gate store_lawful

refund-charge_example :
    Holds "pg_a"
      (after_refund noon alice)
      store
      (refund "pg_a" "search" 5 noon (charge hooks "pg_a" 5 noon search gate)).store
refund-charge_example =
    refund-charge hooks "pg_a" "search" 5 noon search gate alice alice_found (omega arith)

key_named : given (some "pg_a") ≡ some "pg_a"
unfolding given
key_named = refl

filter_tools_iff_example :
    let shown =
      or_else
        (filter_tools_for_key (some "pg_a") ("search" ∷ "write" ∷ []) [] noon gate).0
        ("search" ∷ "write" ∷ []) in
    let access = access_of alice (policy_for "pg_a" alice gate.groups).0 in
    (includes "write" shown ≡ true) ↔ (
      (includes "write" ("search" ∷ "write" ∷ []) ≡ true)
      × (check_tool_acl access.allowed_tools access.denied_tools "write" ≡ none)
      × (check_token [] "write" ≡ none))
filter_tools_iff_example =
    filter_tools_iff "pg_a" alice ("search" ∷ "write" ∷ []) [] noon gate "write" key_named
      alice_found
