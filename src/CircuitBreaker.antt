-- ===== src/CircuitBreaker.antt =====
-- src/circuit-breaker.ts. Times are milliseconds and a method reads the clock once. JavaScript takes
-- the time 0 for no time, and the cooldown is a second at least, so that a clock that went back does
-- not end it.
pub mod Transitions
use paygate_mcp.Base.{
  ℕ, ◌+◌, ◌-◌, ◌*◌, Bool, true, false, ◌&&◌, Option, none, some, ltb, leb, max, if◌then◌else◌,
}

pub data CircuitState : Type 0 where
  closed opened half_open : CircuitState

pub record CircuitBreaker : Type 0 where
  pub state : CircuitState
  pub consecutive_failures : ℕ
  pub last_failure_at : Option ℕ
  pub opened_at : Option ℕ
  pub total_failures : ℕ
  pub total_successes : ℕ
  pub total_rejections : ℕ
  pub threshold : ℕ
  pub cooldown_ms : ℕ

pub record CircuitStatus : Type 0 where
  pub state : CircuitState
  pub consecutive_failures : ℕ
  pub last_failure_at : Option ℕ
  pub opened_at : Option ℕ
  pub total_failures : ℕ
  pub total_successes : ℕ
  pub total_rejections : ℕ

unfoldable pub create : ℕ → ℕ → CircuitBreaker
create threshold cooldown_seconds = record {
  state = closed;
  consecutive_failures = 0;
  last_failure_at = none;
  opened_at = none;
  total_failures = 0;
  total_successes = 0;
  total_rejections = 0;
  threshold = max 1 threshold;
  cooldown_ms = max 1000 (cooldown_seconds * 1000);
}

-- `this.openedAt && now - this.openedAt >= this.cooldownMs`
abbrev pub cooled : ℕ → ℕ → Option ℕ → Bool
cooled now cooldown none = false
cooled now cooldown (some t) = ltb 0 t && leb cooldown (now - t)

abbrev allow_in : CircuitState → ℕ → CircuitBreaker → Bool × CircuitBreaker
allow_in closed now b = (true, b)
allow_in opened now b =
    if cooled now b.cooldown_ms b.opened_at
    then (true, record b { state = half_open })
    else (false, record b { total_rejections = b.total_rejections + 1 })
allow_in half_open now b = (true, b)

unfoldable pub allow_request : ℕ → CircuitBreaker → Bool × CircuitBreaker
allow_request now b = allow_in b.state now b

abbrev succeed_in : CircuitState → CircuitBreaker → CircuitBreaker
succeed_in half_open b = record b { state = closed; consecutive_failures = 0; opened_at = none }
succeed_in closed b = record b { consecutive_failures = 0 }
succeed_in opened b = b

unfoldable pub record_success : CircuitBreaker → CircuitBreaker
record_success b = succeed_in b.state (record b { total_successes = b.total_successes + 1 })

abbrev fail_in : CircuitState → ℕ → CircuitBreaker → CircuitBreaker
fail_in half_open now b = record b { state = opened; opened_at = some now }
fail_in closed now b =
    if leb b.threshold b.consecutive_failures
    then record b { state = opened; opened_at = some now }
    else b
fail_in opened now b = b

unfoldable pub record_failure : ℕ → CircuitBreaker → CircuitBreaker
record_failure now b = fail_in b.state now (record b {
  total_failures = b.total_failures + 1;
  consecutive_failures = b.consecutive_failures + 1;
  last_failure_at = some now;
})

abbrev cooled_state : ℕ → CircuitState → CircuitBreaker → CircuitState
cooled_state now closed b = closed
cooled_state now opened b = if cooled now b.cooldown_ms b.opened_at then half_open else opened
cooled_state now half_open b = half_open

-- The report, and the breaker, which the report may move on.
unfoldable pub status : ℕ → CircuitBreaker → CircuitStatus × CircuitBreaker
status now b =
    let state = cooled_state now b.state b in
    (
      record {
        state = state;
        consecutive_failures = b.consecutive_failures;
        last_failure_at = b.last_failure_at;
        opened_at = b.opened_at;
        total_failures = b.total_failures;
        total_successes = b.total_successes;
        total_rejections = b.total_rejections;
      },
      record b { state = state },
    )

unfoldable pub reset : CircuitBreaker → CircuitBreaker
reset b = record b { state = closed; consecutive_failures = 0; opened_at = none }
