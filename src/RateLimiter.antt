-- ===== src/RateLimiter.antt =====
-- src/rate-limiter.ts: the sliding window limiter. Times are milliseconds and the clock is an
-- argument: a method reads it once. `t > now - windowMs` is written `now < t + window_ms`.
-- `none` stands for `Infinity`, and a limit of 0 for a limit of 0 or less.
pub mod History
pub mod Window
pub mod Decisions
use paygate_mcp.Base.{
  ℕ, ◌+◌, ◌-◌, String, Bool, true, false, not, Option, none, some, List, [], ◌∷◌, ◌++◌, ltb, leb,
  length, filter, is_nonempty, or_else, if◌then◌else◌,
}
use paygate_mcp.Base.Dict.{Dict, get, set}
use paygate_mcp.Base.Dict

-- `this.windowMs`
abbrev pub window_ms : ℕ
window_ms = 60000

pub record RateLimiter : Type 0 where
  pub max_calls : ℕ
  pub windows : Dict (List ℕ)
  pub is_cleaning : Bool

pub data LimitReason : Type 0 where
  rate_limited tool_rate_limited : ℕ → LimitReason

pub record RateLimitResult : Type 0 where
  pub allowed : Bool
  pub reason : Option LimitReason
  pub remaining : Option ℕ
  pub reset_in_ms : ℕ

pub record RateLimitStatus : Type 0 where
  pub used : ℕ
  pub limit : ℕ
  pub remaining : Option ℕ
  pub reset_in_ms : ℕ

-- `timestamps.filter(t => t > cutoff)`
abbrev pub live : ℕ → List ℕ → List ℕ
live now = filter (λ t. ltb now (t + window_ms))

-- `entry.timestamps[0] + this.windowMs - now`, or the window where there is no entry
abbrev pub reset_in : ℕ → List ℕ → ℕ
reset_in now [] = window_ms
reset_in now (t ∷ ts) = t + window_ms - now

-- the constructor
unfoldable pub create : ℕ → RateLimiter
create max = record { max_calls = max; windows = []; is_cleaning = ltb 0 max }

unfoldable pub set_global_limit : ℕ → RateLimiter → RateLimiter
set_global_limit max l = record l { max_calls = max; is_cleaning = ltb 0 max }

-- `getOrCreate`, without the write
unfoldable pub entry_of : String → RateLimiter → List ℕ
entry_of key l = or_else (get key l.windows) []

abbrev pub put_entry : String → List ℕ → RateLimiter → RateLimiter
put_entry key ts l = record l { windows = set key ts l.windows }

abbrev pub unlimited : RateLimitResult
unlimited = record { allowed = true; reason = none; remaining = none; reset_in_ms = 0 }

-- the common tail of `check` and `checkCustom`, over the timestamps in the window
abbrev pub judge : ℕ → LimitReason → ℕ → List ℕ → RateLimitResult
judge limit reason now ts =
    if leb limit (length ts)
    then record {
      allowed = false;
      reason = some reason;
      remaining = some 0;
      reset_in_ms = reset_in now ts;
    }
    else record {
      allowed = true;
      reason = none;
      remaining = some (limit - length ts - 1);
      reset_in_ms = reset_in now ts;
    }

unfoldable pub check : String → ℕ → RateLimiter → RateLimitResult × RateLimiter
check key now l =
    let ts = live now (entry_of key l) in
    if leb l.max_calls 0
    then (unlimited, l)
    else (judge l.max_calls (rate_limited l.max_calls) now ts, put_entry key ts l)

unfoldable pub check_custom : String → ℕ → ℕ → RateLimiter → RateLimitResult × RateLimiter
check_custom key max now l =
    let ts = live now (entry_of key l) in
    if leb max 0
    then (unlimited, l)
    else (judge max (tool_rate_limited max) now ts, put_entry key ts l)

unfoldable pub record_custom : String → ℕ → RateLimiter → RateLimiter
record_custom key now l = put_entry key (entry_of key l ++ now ∷ []) l

-- `record`, a reserved word
unfoldable pub record_call : String → ℕ → RateLimiter → RateLimiter
record_call key now l = if leb l.max_calls 0 then l else record_custom key now l

unfoldable pub get_current_count : String → ℕ → RateLimiter → ℕ × RateLimiter
get_current_count key now l = elim (get key l.windows) [
  | none ↦ (0, l)
  | some ts ↦ (length (live now ts), put_entry key (live now ts) l)
]

abbrev status_of : ℕ → ℕ → List ℕ → RateLimitStatus
status_of limit now ts = record {
  used = length ts;
  limit = limit;
  remaining = some (limit - length ts);
  reset_in_ms = reset_in now ts;
}

unfoldable pub get_status : String → Option ℕ → ℕ → RateLimiter → RateLimitStatus × RateLimiter
get_status key max now l =
    let limit = or_else max l.max_calls in
    if leb limit 0
    then (record { used = 0; limit = 0; remaining = none; reset_in_ms = 0 }, l)
    else (elim (get key l.windows) [
      | none ↦
          (record { used = 0; limit = limit; remaining = some limit; reset_in_ms = window_ms }, l)
      | some ts ↦ (status_of limit now (live now ts), put_entry key (live now ts) l)
    ])

unfoldable pub cleanup_windows : ℕ → Dict (List ℕ) → Dict (List ℕ)
cleanup_windows now [] = []
cleanup_windows now ((key, ts) ∷ m) =
    let rest = cleanup_windows now m in
    if is_nonempty (live now ts) then (key, live now ts) ∷ rest else rest

unfoldable pub cleanup : ℕ → RateLimiter → RateLimiter
cleanup now l = record l { windows = cleanup_windows now l.windows }

unfoldable pub destroy : RateLimiter → RateLimiter
destroy l = record l { is_cleaning = false }
