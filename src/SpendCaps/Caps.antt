-- ===== src/SpendCaps/Caps.antt =====
-- What the caps of src/spend-caps.ts guarantee.
use text.Mathlib.TextEquality.{eq_iff}
use paygate_mcp.Base.{
  ℕ, ◌+◌, ◌*◌, ◌≤◌, ◌<◌, String, ◌≡◌, ◌↔◌, true, not, ◌&&◌, some, arith, ltb, leb, if◌then◌else◌,
}
use paygate_mcp.Base.Dict
use paygate_mcp.Base.Dict.{Dict, get-set, get-delete, get-set_self}
use paygate_mcp.Base.Text.{str_eq}
use paygate_mcp.Types.{QuotaConfig}
use paygate_mcp.SpendCaps
use paygate_mcp.SpendCaps.{
  SpendCapConfig, SpendCapManager, check_server_cap, check_hourly_cap, reset_server_if_needed,
  record_call, record_batch, get_or_create_hourly_bucket, is_auto_suspended, auto_suspend_key,
  clear_auto_suspend, get_auto_suspend_status, current_bucket, hour_of,
}

-- The server's counters are within its caps, where they are set.
pub record IsCapped (m : SpendCapManager) : Type 0 where
  pub credits :
      0 < m.config.server_daily_credit_cap
      → m.server_daily_credits ≤ m.config.server_daily_credit_cap
  pub calls :
      0 < m.config.server_daily_call_cap → m.server_daily_calls ≤ m.config.server_daily_call_cap

-- The server's check lets a call through exactly when recording it at that time leaves the counters
-- within the caps.
pub check_server_cap_iff :
    (key : String) (need now : ℕ) (m : SpendCapManager)
    → ((check_server_cap need now m).0.allowed ≡ true) ↔ IsCapped (record_call key need now m)
unfolding check_server_cap record_call get_or_create_hourly_bucket reset_server_if_needed
check_server_cap_iff key need now m = ground arith

-- The key's bucket of this hour.
abbrev pub bucket : String → ℕ → SpendCapManager → SpendCaps.HourlyBucket
bucket key now m = (get_or_create_hourly_bucket key now m).0

-- A bucket is within the hourly limits of a quota, where they are set.
pub record IsHourly (q : QuotaConfig) (b : SpendCaps.HourlyBucket) : Type 0 where
  pub calls : 0 < q.hourly_call_limit → b.calls ≤ q.hourly_call_limit
  pub credits : 0 < q.hourly_credit_limit → b.credits ≤ q.hourly_credit_limit

bucket-record :
    (key : String) (charged now : ℕ) (m : SpendCapManager)
    → bucket key now (record_call key charged now m) ≡ (record (bucket key now m) {
      calls = (bucket key now m).calls + 1;
      credits = (bucket key now m).credits + charged;
    })
unfolding get_or_create_hourly_bucket record_call reset_server_if_needed
bucket-record key charged now m =
    let b = current_bucket (hour_of now) (Dict.get key m.hourly_buckets) in
    let b' : SpendCaps.HourlyBucket = record b {
      calls = b.calls + 1;
      credits = b.credits + charged;
    } in
    ground (
      arith,
      get-set_self key b m.hourly_buckets,
      get-set_self key b' (Dict.set key b m.hourly_buckets),
    )

-- The hourly check lets a call of a key with a quota through exactly when recording it at that time
-- leaves the key's bucket of the hour within the quota's hourly limits.
pub check_hourly_cap_iff :
    (key : String) (need now : ℕ) (q : QuotaConfig) (m : SpendCapManager)
    → ((check_hourly_cap key need (some q) now m).0.allowed ≡ true)
      ↔ IsHourly q (bucket key now (record_call key need now m))
unfolding check_hourly_cap
check_hourly_cap_iff key need now q m = rw (bucket-record key need now m) (ground arith)

-- A key that was suspended at a time after 0 counts as suspended until the cooldown is over, where
-- there is one, and else for good, and any other key counts as before.
pub suspension_lasts :
    (key j : String) (t now : ℕ) (m : SpendCapManager)
    → 0 < t
    → (is_auto_suspended j now (auto_suspend_key key t m)).0 ≡ (
        if str_eq key j
        then not (
            ltb 0 m.config.auto_resume_after_seconds
            && leb (t + m.config.auto_resume_after_seconds * 1000) now)
        else (is_auto_suspended j now m).0)
unfolding is_auto_suspended auto_suspend_key
suspension_lasts key j t now m pos = ground (arith, get-set key j t m.suspended_at)

-- Right after the suspension test of a key, and at the same time, the status report says suspended
-- exactly when the test did.
pub status_agrees :
    (key : String) (now : ℕ) (m : SpendCapManager)
    → (get_auto_suspend_status key now (is_auto_suspended key now m).1).suspended
      ≡ (is_auto_suspended key now m).0
unfolding is_auto_suspended get_auto_suspend_status
status_agrees key now m = ground (arith, get-delete key key m.suspended_at, eq_iff key key)
