-- ===== src/Meter.antt =====
-- src/meter.ts: the log of usage events, which is cut by a quarter when it grows too long.
pub mod Bounds
use paygate_mcp.Base.{
  ℕ, zero, suc, ◌+◌, ◌/◌, String, Bool, Option, List, [], ◌∷◌, ◌++◌, length, drop, ltb,
  if◌then◌else◌,
}
use paygate_mcp.Types.{Reason}

-- `api_key` is the first ten characters of the key.
pub record UsageEvent : Type 0 where
  pub timestamp : ℕ
  pub api_key : String
  pub key_name : String
  pub tool : String
  pub credits_charged : ℕ
  pub is_refund : Bool
  pub allowed : Bool
  pub deny_reason : Option Reason
  pub namespace : Option String

pub record UsageMeter : Type 0 where
  pub events : List UsageEvent
  pub max_events : ℕ

-- `Math.floor(max * 0.25)` is the division by 4.
unfoldable pub record_event : UsageEvent → UsageMeter → UsageMeter
record_event e m =
    let grown = m.events ++ e ∷ [] in
    record m {
      events = if ltb m.max_events (length grown) then drop (m.max_events / 4) grown else grown;
    }
