-- ===== src/Types.antt =====
-- src/types.ts: the records that the components share. Credits and counters are natural numbers
-- ("credits are integers", src/store.ts:4, and never negative). A date text is the time
-- that it names, or the day or month of it where only that is kept; `none` where there is none or
-- where the text is no date.
use paygate_mcp.Base.{ℕ, String, Bool, Option, List}
use paygate_mcp.Base.Dict.{Dict}
use paygate_mcp.RateLimiter.{LimitReason}

-- A limit of 0 is no limit.
pub record QuotaConfig : Type 0 where
  pub daily_call_limit : ℕ
  pub monthly_call_limit : ℕ
  pub daily_credit_limit : ℕ
  pub monthly_credit_limit : ℕ
  pub hourly_call_limit : ℕ
  pub hourly_credit_limit : ℕ

pub record AutoTopup : Type 0 where
  pub threshold : ℕ
  pub amount : ℕ
  pub max_daily : ℕ

pub record KeyNote : Type 0 where
  pub timestamp : ℕ
  pub author : String
  pub text : String

-- An absent list of notes is empty.
pub record ApiKeyRecord : Type 0 where
  pub key : String
  pub name : String
  pub credits : ℕ
  pub total_spent : ℕ
  pub total_calls : ℕ
  pub created_at : ℕ
  pub last_used_at : Option ℕ
  pub active : Bool
  pub spending_limit : ℕ
  pub allowed_tools : List String
  pub denied_tools : List String
  pub expires_at : Option ℕ
  pub quota : Option QuotaConfig
  pub tags : Dict String
  pub ip_allowlist : List String
  pub namespace : String
  pub group : Option String
  pub suspended : Bool
  pub allowed_countries : List String
  pub denied_countries : List String
  pub alias : Option String
  pub auto_topup : Option AutoTopup
  pub auto_topup_today_count : ℕ
  pub auto_topup_last_reset_day : ℕ
  pub quota_daily_calls : ℕ
  pub quota_monthly_calls : ℕ
  pub quota_daily_credits : ℕ
  pub quota_monthly_credits : ℕ
  pub quota_last_reset_day : ℕ
  pub quota_last_reset_month : ℕ
  pub notes : List KeyNote
  pub webhook_url : Option String
  pub webhook_secret : Option String

-- The reasons that the gate gives, a constructor for each text and its numbers as arguments; the
-- text `shadow:…` is `shadow …`.
pub data Reason : Type 0 where
  missing_api_key api_key_expired invalid_api_key key_suspended : Reason
  ip_not_allowed : String → Reason
  country_not_allowed country_denied : List ℕ → Reason
  tool_not_allowed tool_denied token_tool_not_allowed : String → Reason
  limiter : LimitReason → Reason
  tool_limited : String → ℕ → Reason
  insufficient_credits spending_limit_exceeded : Reason
  insufficient_credits_for : ℕ → ℕ → Reason
  spending_limit_exceeded_by : ℕ → ℕ → ℕ → Reason
  daily_call_quota_exceeded monthly_call_quota_exceeded : ℕ → ℕ → Reason
  daily_batch_quota_exceeded monthly_batch_quota_exceeded : ℕ → ℕ → ℕ → Reason
  daily_credit_quota_exceeded monthly_credit_quota_exceeded : ℕ → ℕ → ℕ → Reason
  team_denied plugin_says : String → Reason
  plugin_denied batch_rejected refunded : Reason
  shadow : Reason → Reason

pub record GateDecision : Type 0 where
  pub allowed : Bool
  pub reason : Option Reason
  pub credits_charged : ℕ
  pub remaining_credits : ℕ
