-- ===== src/SpendCaps.antt =====
-- src/spend-caps.ts: the daily caps of the whole server, the hourly caps of a key, and the suspension
-- of a key that breaks them. Times are milliseconds and a method reads the clock once; the texts of a
-- day and an hour are the numbers of the day and the hour. JavaScript takes the time 0 for no time. The
-- callbacks only notify and are left out.
pub mod Caps
use paygate_mcp.Base.{
  ℕ, ◌+◌, ◌-◌, ◌*◌, ◌/◌, String, Bool, true, false, not, ◌&&◌, Option, none, some, List, [], ltb,
  leb, ◌==◌, length, if◌then◌else◌,
}
use paygate_mcp.Base.Dict
use paygate_mcp.Base.Dict.{Dict}
use paygate_mcp.Calendar.{day_of}
use paygate_mcp.Types.{QuotaConfig}

pub record SpendCapConfig : Type 0 where
  pub suspends : Bool
  pub server_daily_credit_cap : ℕ
  pub server_daily_call_cap : ℕ
  pub auto_resume_after_seconds : ℕ

-- The reasons of a refusal, with the numbers of their texts.
pub data CapReason : Type 0 where
  server_daily_credit_cap hourly_credit_cap : ℕ → ℕ → ℕ → CapReason
  server_daily_call_cap hourly_call_cap : ℕ → ℕ → CapReason

pub record SpendCapCheckResult : Type 0 where
  pub allowed : Bool
  pub reason : Option CapReason
  pub should_suspend : Bool

pub record HourlyBucket : Type 0 where
  pub hour : ℕ
  pub calls : ℕ
  pub credits : ℕ

pub record SpendCapManager : Type 0 where
  pub config : SpendCapConfig
  pub server_daily_calls : ℕ
  pub server_daily_credits : ℕ
  pub server_daily_reset_day : ℕ
  pub hourly_buckets : Dict HourlyBucket
  pub suspended_at : Dict ℕ

unfoldable pub create : SpendCapConfig → ℕ → SpendCapManager
create config now = record {
  config = config;
  server_daily_calls = 0;
  server_daily_credits = 0;
  server_daily_reset_day = day_of now;
  hourly_buckets = [];
  suspended_at = [];
}

abbrev pub update_config : SpendCapConfig → SpendCapManager → SpendCapManager
update_config config m = record m { config = config }

abbrev pub hour_of : ℕ → ℕ
hour_of now = now / 3600000

unfoldable pub reset_server_if_needed : ℕ → SpendCapManager → SpendCapManager
reset_server_if_needed now m = if m.server_daily_reset_day == day_of now then m else record m {
  server_daily_calls = 0;
  server_daily_credits = 0;
  server_daily_reset_day = day_of now;
}

abbrev empty_bucket : ℕ → HourlyBucket
empty_bucket hour = record { hour = hour; calls = 0; credits = 0 }

abbrev pub current_bucket : ℕ → Option HourlyBucket → HourlyBucket
current_bucket hour none = empty_bucket hour
current_bucket hour (some b) = if b.hour == hour then b else empty_bucket hour

-- The bucket of the hour, and the manager that has it. Its record is shared with the map, so a change
-- of it is written back.
unfoldable pub get_or_create_hourly_bucket :
    String → ℕ → SpendCapManager → HourlyBucket × SpendCapManager
get_or_create_hourly_bucket key now m =
    let b = current_bucket (hour_of now) (Dict.get key m.hourly_buckets) in
    (b, record m { hourly_buckets = Dict.set key b m.hourly_buckets })

abbrev pass : SpendCapCheckResult
pass = record { allowed = true; reason = none; should_suspend = false }

abbrev deny : Bool → CapReason → SpendCapCheckResult
deny suspends reason = record { allowed = false; reason = some reason; should_suspend = suspends }

abbrev server_result : ℕ → SpendCapManager → SpendCapCheckResult
server_result need m =
    let credit_cap = m.config.server_daily_credit_cap in
    let call_cap = m.config.server_daily_call_cap in
    if ltb 0 credit_cap && ltb credit_cap (m.server_daily_credits + need)
    then deny false (server_daily_credit_cap m.server_daily_credits need credit_cap)
    else if ltb 0 call_cap && ltb call_cap (m.server_daily_calls + 1)
    then deny false (server_daily_call_cap m.server_daily_calls call_cap)
    else pass

unfoldable pub check_server_cap : ℕ → ℕ → SpendCapManager → SpendCapCheckResult × SpendCapManager
check_server_cap need now m = let m' = reset_server_if_needed now m in (server_result need m', m')

abbrev hourly_result : ℕ → QuotaConfig → Bool → HourlyBucket → SpendCapCheckResult
hourly_result need q suspends b =
    if ltb 0 q.hourly_call_limit && ltb q.hourly_call_limit (b.calls + 1)
    then deny suspends (hourly_call_cap b.calls q.hourly_call_limit)
    else if ltb 0 q.hourly_credit_limit && ltb q.hourly_credit_limit (b.credits + need)
    then deny suspends (hourly_credit_cap b.credits need q.hourly_credit_limit)
    else pass

unfoldable pub check_hourly_cap :
    String → ℕ → Option QuotaConfig → ℕ → SpendCapManager → SpendCapCheckResult × SpendCapManager
check_hourly_cap key need none now m = (pass, m)
check_hourly_cap key need (some q) now m =
    let (b, m') = get_or_create_hourly_bucket key now m in
    if (q.hourly_call_limit == 0) && (q.hourly_credit_limit == 0)
    then (pass, m)
    else (hourly_result need q m.config.suspends b, m')

-- `elapsed >= autoResumeAfterSeconds`, in milliseconds
abbrev resumes : ℕ → ℕ → SpendCapConfig → Bool
resumes t now c =
    ltb 0 c.auto_resume_after_seconds && leb (c.auto_resume_after_seconds * 1000) (now - t)

unfoldable pub is_auto_suspended : String → ℕ → SpendCapManager → Bool × SpendCapManager
is_auto_suspended key now m = elim (Dict.get key m.suspended_at) [
  | none ↦ (false, m)
  | some t ↦
      if t == 0
      then (false, m)
      else if resumes t now m.config
      then (false, record m { suspended_at = Dict.delete key m.suspended_at })
      else (true, m)
]

unfoldable pub auto_suspend_key : String → ℕ → SpendCapManager → SpendCapManager
auto_suspend_key key now m = record m { suspended_at = Dict.set key now m.suspended_at }

unfoldable pub clear_auto_suspend : String → SpendCapManager → Bool × SpendCapManager
clear_auto_suspend key m = (
  elim (Dict.get key m.suspended_at) [ none ↦ false | some t ↦ true ],
  record m { suspended_at = Dict.delete key m.suspended_at },
)

abbrev add_to_server : ℕ → ℕ → SpendCapManager → SpendCapManager
add_to_server count charged m = record m {
  server_daily_calls = m.server_daily_calls + count;
  server_daily_credits = m.server_daily_credits + charged;
}

unfoldable pub record_batch : String → ℕ → ℕ → ℕ → SpendCapManager → SpendCapManager
record_batch key count charged now m =
    let (b, m') =
      get_or_create_hourly_bucket key now
        (add_to_server count charged (reset_server_if_needed now m)) in
    record m' {
      hourly_buckets =
          Dict.set key (record b { calls = b.calls + count; credits = b.credits + charged })
            m'.hourly_buckets;
    }

-- `record`, a reserved word
unfoldable pub record_call : String → ℕ → ℕ → SpendCapManager → SpendCapManager
record_call key charged now m =
    let (b, m') =
      get_or_create_hourly_bucket key now
        (add_to_server 1 charged (reset_server_if_needed now m)) in
    record m' {
      hourly_buckets =
          Dict.set key (record b { calls = b.calls + 1; credits = b.credits + charged })
            m'.hourly_buckets;
    }

pub record ServerStats : Type 0 where
  pub daily_calls : ℕ
  pub daily_credits : ℕ
  pub daily_call_cap : ℕ
  pub daily_credit_cap : ℕ
  pub reset_day : ℕ

-- As in the source, the call cap is the credit cap.
unfoldable pub get_server_stats : ℕ → SpendCapManager → ServerStats × SpendCapManager
get_server_stats now m =
    let m' = reset_server_if_needed now m in
    (
      record {
        daily_calls = m'.server_daily_calls;
        daily_credits = m'.server_daily_credits;
        daily_call_cap = m'.config.server_daily_credit_cap;
        daily_credit_cap = m'.config.server_daily_credit_cap;
        reset_day = m'.server_daily_reset_day;
      },
      m',
    )

pub record SuspendStatus : Type 0 where
  pub suspended : Bool
  pub suspended_at : Option ℕ
  pub auto_resume_in : Option ℕ

-- `Math.max(0, Math.ceil(autoResumeAfterSeconds - elapsed))`
abbrev resume_in : ℕ → ℕ → SpendCapConfig → Option ℕ
resume_in t now c =
    if ltb 0 c.auto_resume_after_seconds
    then some ((c.auto_resume_after_seconds * 1000 + t - now + 999) / 1000)
    else none

unfoldable pub get_auto_suspend_status : String → ℕ → SpendCapManager → SuspendStatus
get_auto_suspend_status key now m =
    let free : SuspendStatus = record {
      suspended = false;
      suspended_at = none;
      auto_resume_in = none;
    } in
    elim (Dict.get key m.suspended_at) [
      | none ↦ free
      | some t ↦ if t == 0 then free else record {
        suspended = true;
        suspended_at = some t;
        auto_resume_in = resume_in t now m.config;
      }
    ]

abbrev pub suspended_count : SpendCapManager → ℕ
suspended_count m = length m.suspended_at

pub record HourlyStats : Type 0 where
  pub hourly_calls : ℕ
  pub hourly_credits : ℕ
  pub hour : ℕ

unfoldable pub get_key_hourly_stats : String → ℕ → SpendCapManager → HourlyStats × SpendCapManager
get_key_hourly_stats key now m =
    let (b, m') = get_or_create_hourly_bucket key now m in
    (record { hourly_calls = b.calls; hourly_credits = b.credits; hour = b.hour }, m')
