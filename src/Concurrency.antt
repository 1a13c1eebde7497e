-- ===== src/Concurrency.antt =====
-- src/concurrency-limiter.ts: the cap on calls in flight, per key and per tool. A limit of 0 is no
-- limit.
pub mod Slots
use paygate_mcp.Base.{
  ℕ, ◌+◌, ◌-◌, String, Bool, true, false, ◌&&◌, ◌||◌, Option, none, some, List, [], ltb, leb,
  or_else, if◌then◌else◌,
}
use paygate_mcp.Base.Dict
use paygate_mcp.Base.Dict.{Dict, sum_by}

pub record ConcurrencyLimiterConfig : Type 0 where
  pub max_concurrent_per_key : ℕ
  pub max_concurrent_per_tool : ℕ

pub record ConcurrencyLimiter : Type 0 where
  pub config : ConcurrencyLimiterConfig
  pub by_key : Dict ℕ
  pub by_tool : Dict ℕ
  pub by_key_tool : Dict ℕ

-- The reasons come with the calls in flight and the limit.
pub data AcquireResult : Type 0 where
  acquired : AcquireResult
  key_limit_exceeded tool_limit_exceeded : ℕ → ℕ → AcquireResult

unfoldable pub create : ConcurrencyLimiterConfig → ConcurrencyLimiter
create config = record { config = config; by_key = []; by_tool = []; by_key_tool = [] }

-- `map.get(key) || 0`
unfoldable pub inflight : String → Dict ℕ → ℕ
inflight key m = or_else (Dict.get key m) 0

-- `${apiKey}:${toolName}`
abbrev pub composite : String → String → String
composite key tool = Prim.Native.String.◌++◌ key (Prim.Native.String.◌++◌ ":" tool)

abbrev pub add_one : String → Dict ℕ → Dict ℕ
add_one key m = Dict.set key (inflight key m + 1) m

abbrev pub remove_one : String → Dict ℕ → Dict ℕ
remove_one key m =
    if leb (inflight key m) 1 then Dict.delete key m else Dict.set key (inflight key m - 1) m

unfoldable pub acquire : String → String → ConcurrencyLimiter → AcquireResult × ConcurrencyLimiter
acquire key tool l =
    let per_key = l.config.max_concurrent_per_key in
    let per_tool = l.config.max_concurrent_per_tool in
    if ltb 0 per_key && leb per_key (inflight key l.by_key)
    then (key_limit_exceeded (inflight key l.by_key) per_key, l)
    else if ltb 0 per_tool && leb per_tool (inflight tool l.by_tool)
    then (tool_limit_exceeded (inflight tool l.by_tool) per_tool, l)
    else (
      acquired,
      record l {
        by_key = add_one key l.by_key;
        by_tool = add_one tool l.by_tool;
        by_key_tool = add_one (composite key tool) l.by_key_tool;
      },
    )

unfoldable pub release : String → String → ConcurrencyLimiter → ConcurrencyLimiter
release key tool l = record l {
  by_key = remove_one key l.by_key;
  by_tool = remove_one tool l.by_tool;
  by_key_tool = remove_one (composite key tool) l.by_key_tool;
}

abbrev pub get_key_inflight : String → ConcurrencyLimiter → ℕ
get_key_inflight key l = inflight key l.by_key

abbrev pub get_tool_inflight : String → ConcurrencyLimiter → ℕ
get_tool_inflight tool l = inflight tool l.by_tool

-- `totalInflight` of the snapshot.
abbrev pub total_inflight : ConcurrencyLimiter → ℕ
total_inflight l = sum_by (λ n. n) l.by_key

abbrev pub enabled : ConcurrencyLimiter → Bool
enabled l = ltb 0 l.config.max_concurrent_per_key || ltb 0 l.config.max_concurrent_per_tool
