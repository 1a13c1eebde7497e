-- ===== src/Tests/Servers.antt =====
-- The circuit breaker, the slots and the spend caps on concrete inputs.
use paygate_mcp.Base.{ℕ, ◌≡◌, refl, true, none, some, List, [], ◌∷◌}
use paygate_mcp.Base.Dict
use paygate_mcp.CircuitBreaker
use paygate_mcp.CircuitBreaker.{CircuitBreaker, closed, opened, allow_request}
use paygate_mcp.CircuitBreaker.Transitions.{
  Event, ask, fail, succeed, run, IsConsistent, run-IsConsistent,
}
use paygate_mcp.Concurrency
use paygate_mcp.Concurrency.{
  ConcurrencyLimiter, ConcurrencyLimiterConfig, acquire, acquired, release, inflight,
  get_key_inflight, get_tool_inflight,
}
use paygate_mcp.Concurrency.Slots
use paygate_mcp.Concurrency.Slots.{IsWithinLimits, acquire_iff, release-acquire, run-IsWithinLimits}
use paygate_mcp.SpendCaps.{SpendCapManager}

abbrev outage : List Event
outage = fail 1000 ∷ fail 2000 ∷ ask 3000 ∷ ask 40000 ∷ succeed ∷ []

run-IsConsistent_example : IsConsistent (run outage (CircuitBreaker.create 2 30))
run-IsConsistent_example = run-IsConsistent 2 30 outage

abbrev breaker : CircuitBreaker
breaker = record {
  state = closed;
  consecutive_failures = 1;
  last_failure_at = some 500;
  opened_at = none;
  total_failures = 1;
  total_successes = 0;
  total_rejections = 0;
  threshold = 3;
  cooldown_ms = 30000;
}

abbrev failing : List ℕ
failing = 1000 ∷ 2000 ∷ []

abbrev tripped : CircuitBreaker
tripped = record breaker { state = opened; opened_at = some 2000; consecutive_failures = 3 }

abbrev asking : List ℕ
asking = 2500 ∷ 31999 ∷ []

abbrev slots : ConcurrencyLimiterConfig
slots = record { max_concurrent_per_key = 2; max_concurrent_per_tool = 1 }

abbrev free_slots : ConcurrencyLimiter
free_slots = record {
  config = slots;
  by_key = ("a", 1) ∷ [];
  by_tool = ("read", 1) ∷ [];
  by_key_tool = [];
}

run-IsWithinLimits_example : IsWithinLimits (
    Slots.run
      (Slots.ask "a" "read" ∷ Slots.ask "b" "read" ∷ Slots.finish "a" "read" ∷ [])
      (Concurrency.create slots))
run-IsWithinLimits_example =
    run-IsWithinLimits slots
      (Slots.ask "a" "read" ∷ Slots.ask "b" "read" ∷ Slots.finish "a" "read" ∷ [])

slot_given : (acquire "a" "search" free_slots).0 ≡ acquired
unfolding acquire inflight Dict.get
slot_given = refl

abbrev manager : SpendCapManager
manager = record {
  config = record {
    suspends = true;
    server_daily_credit_cap = 100;
    server_daily_call_cap = 10;
    auto_resume_after_seconds = 60;
  };
  server_daily_calls = 3;
  server_daily_credits = 96;
  server_daily_reset_day = 20454;
  hourly_buckets = ("pg_a", record { hour = 490908; calls = 1; credits = 4 }) ∷ [];
  suspended_at = ("pg_b", 1767268790000) ∷ [];
}
