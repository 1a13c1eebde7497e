-- ===== src/Tests/Batches.antt =====
-- Batches on the gate of the tests.
use paygate_mcp.Base.{◌≡◌, refl, none, some, [], ◌∷◌}
use paygate_mcp.Base.Dict
use paygate_mcp.Base.Text
use paygate_mcp.Calendar
use paygate_mcp.Quota
use paygate_mcp.RateLimiter
use paygate_mcp.Plugins
use paygate_mcp.Keys
use paygate_mcp.Gate
use paygate_mcp.Gate.Checks
use paygate_mcp.Gate.Batch
use paygate_mcp.Gate.Batch.{BatchRequest, evaluate_batch}
use paygate_mcp.Tests.{noon, gate, hooks}

-- A call for five credits and one for one.
abbrev batch : BatchRequest
batch = record {
  api_key = some "pg_a";
  calls =
      record { name = "search"; input_bytes = none }
      ∷ record { name = "read"; input_bytes = none }
      ∷ [];
  client_ip = none;
  token_tools = [];
}

total_of_batch : (evaluate_batch hooks noon batch gate).0.total_credits ≡ 6
unfolding evaluate_batch Text.given Text.tool_key Text.includes Keys.get_key Keys.has_credits
    Dict.get Dict.set Batch.evaluate_batch_key Batch.check_batch_key Batch.evaluate_calls Batch.scan
    Batch.check_call Batch.rate_of_call Checks.check_tool_acl Checks.check_token
    RateLimiter.get_current_count RateLimiter.create Gate.get_tool_price
    Plugins.execute_transform_price Batch.check_batch_usage Checks.check_rate RateLimiter.check
    RateLimiter.entry_of Checks.check_funds Quota.check_batch Quota.reset_if_needed Calendar.day_of
    Calendar.month_of Calendar.month_of_day Checks.check_team Batch.allow_batch
total_of_batch = refl
