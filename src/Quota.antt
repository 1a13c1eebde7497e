-- ===== src/Quota.antt =====
-- src/quota.ts: the quota tracker. Its state is the counters on the key's record; each method reads
-- the clock once.
pub mod Limits
pub mod Undo
pub mod History
use paygate_mcp.Base.{
  ℕ, ◌+◌, ◌-◌, Bool, not, ◌&&◌, ◌||◌, Option, none, some, ltb, leb, ◌==◌, if◌then◌else◌,
}
use paygate_mcp.Calendar.{day_of, month_of}
use paygate_mcp.Types.{
  QuotaConfig, ApiKeyRecord, Reason, daily_call_quota_exceeded, monthly_call_quota_exceeded,
  daily_batch_quota_exceeded, monthly_batch_quota_exceeded, daily_credit_quota_exceeded,
  monthly_credit_quota_exceeded,
}

unfoldable pub reset_day : ℕ → ApiKeyRecord → ApiKeyRecord
reset_day today r =
    if r.quota_last_reset_day == today
    then r
    else record r { quota_daily_calls = 0; quota_daily_credits = 0; quota_last_reset_day = today }

unfoldable pub reset_month : ℕ → ApiKeyRecord → ApiKeyRecord
reset_month month r = if r.quota_last_reset_month == month then r else record r {
  quota_monthly_calls = 0;
  quota_monthly_credits = 0;
  quota_last_reset_month = month;
}

-- The record after the reset, and whether anything was reset.
unfoldable pub reset_if_needed : ℕ → ApiKeyRecord → Bool × ApiKeyRecord
unfolding reset_day reset_month
reset_if_needed now r = (
  not (r.quota_last_reset_day == day_of now) || not (r.quota_last_reset_month == month_of now),
  reset_month (month_of now) (reset_day (day_of now) r),
)

-- `record.quota || globalQuota`
abbrev pub effective_quota : Option QuotaConfig → Option QuotaConfig → Option QuotaConfig
effective_quota none global = global
effective_quota (some q) global = some q

unfoldable pub credits_within : QuotaConfig → ℕ → ApiKeyRecord → Option Reason
credits_within q need r =
    if ltb 0 q.daily_credit_limit && ltb q.daily_credit_limit (r.quota_daily_credits + need)
    then some (daily_credit_quota_exceeded r.quota_daily_credits need q.daily_credit_limit)
    else if ltb 0 q.monthly_credit_limit
        && ltb q.monthly_credit_limit (r.quota_monthly_credits + need)
    then some (monthly_credit_quota_exceeded r.quota_monthly_credits need q.monthly_credit_limit)
    else none

unfoldable pub call_within : QuotaConfig → ℕ → ApiKeyRecord → Option Reason
unfolding credits_within
call_within q need r =
    if ltb 0 q.daily_call_limit && leb q.daily_call_limit r.quota_daily_calls
    then some (daily_call_quota_exceeded r.quota_daily_calls q.daily_call_limit)
    else if ltb 0 q.monthly_call_limit && leb q.monthly_call_limit r.quota_monthly_calls
    then some (monthly_call_quota_exceeded r.quota_monthly_calls q.monthly_call_limit)
    else credits_within q need r

unfoldable pub batch_within : QuotaConfig → ℕ → ℕ → ApiKeyRecord → Option Reason
unfolding credits_within
batch_within q count need r =
    if ltb 0 q.daily_call_limit && ltb q.daily_call_limit (r.quota_daily_calls + count)
    then some (daily_batch_quota_exceeded r.quota_daily_calls count q.daily_call_limit)
    else if ltb 0 q.monthly_call_limit && ltb q.monthly_call_limit (r.quota_monthly_calls + count)
    then some (monthly_batch_quota_exceeded r.quota_monthly_calls count q.monthly_call_limit)
    else credits_within q need r

abbrev when_quota : Option QuotaConfig → (QuotaConfig → Option Reason) → Option Reason
when_quota none f = none
when_quota (some q) f = f q

-- `check`: the reason of a refusal, and the record, which the reset changes in either case.
unfoldable pub check : ℕ → Option QuotaConfig → ℕ → ApiKeyRecord → Option Reason × ApiKeyRecord
unfolding call_within
check need global now r =
    let r' = (reset_if_needed now r).1 in
    (when_quota (effective_quota r'.quota global) (λ q. call_within q need r'), r')

unfoldable pub check_batch :
    ℕ → ℕ → Option QuotaConfig → ℕ → ApiKeyRecord → Option Reason × ApiKeyRecord
unfolding batch_within
check_batch count need global now r =
    let r' = (reset_if_needed now r).1 in
    (when_quota (effective_quota r'.quota global) (λ q. batch_within q count need r'), r')

abbrev pub add_usage : ℕ → ℕ → ApiKeyRecord → ApiKeyRecord
add_usage count charged r = record r {
  quota_daily_calls = r.quota_daily_calls + count;
  quota_monthly_calls = r.quota_monthly_calls + count;
  quota_daily_credits = r.quota_daily_credits + charged;
  quota_monthly_credits = r.quota_monthly_credits + charged;
}

unfoldable pub record_batch : ℕ → ℕ → ℕ → ApiKeyRecord → ApiKeyRecord
record_batch count charged now r = add_usage count charged (reset_if_needed now r).1

-- `record`, a reserved word
unfoldable pub record_call : ℕ → ℕ → ApiKeyRecord → ApiKeyRecord
record_call charged now r = add_usage 1 charged (reset_if_needed now r).1

-- `Math.max(0, a - b)` is the subtraction of natural numbers.
unfoldable pub unrecord : ℕ → ApiKeyRecord → ApiKeyRecord
unrecord charged r = record r {
  quota_daily_calls = r.quota_daily_calls - 1;
  quota_monthly_calls = r.quota_monthly_calls - 1;
  quota_daily_credits = r.quota_daily_credits - charged;
  quota_monthly_credits = r.quota_monthly_credits - charged;
}
