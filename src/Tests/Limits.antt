-- ===== src/Tests/Limits.antt =====
-- The limiter, the quota tracker, the IP check and the meter on concrete inputs.
use paygate_mcp.Base.{
  ℕ, ◌-◌, ◌/◌, ◌^◌, ◌≤◌, ◌↔◌, ◌≡◌, refl, true, false, none, some, List, [], ◌∷◌, arith, length,
  filter,
}
use paygate_mcp.Base.Dict
use paygate_mcp.Calendar.{day_of, month_of}
use paygate_mcp.RateLimiter
use paygate_mcp.RateLimiter.{RateLimiter, create, check, get_current_count, get_status, window_ms}
use paygate_mcp.RateLimiter.History.{in_window}
use paygate_mcp.RateLimiter.Window.{Event, call, call_tool, status, clean, admissions}
use paygate_mcp.RateLimiter.Window.Run.{admissions-IsSpread}
use paygate_mcp.RateLimiter.Decisions.{used}
use paygate_mcp.Quota
use paygate_mcp.Quota.{effective_quota}
use paygate_mcp.Quota.Limits.{IsWithin, check_iff}
use paygate_mcp.Quota.History.{Use, record_all, IsCounted, record_all-IsCounted}
use paygate_mcp.Ip
use paygate_mcp.Ip.{codes, split, parse_int, ip_to_number, match_cidr}
use paygate_mcp.Ip.Prefix.{match_cidr_iff}
use paygate_mcp.Meter.{UsageEvent, UsageMeter}
use paygate_mcp.Tests.{noon, alice, small_quota}

-- A limiter with two calls in the window of "a".
abbrev busy : RateLimiter
busy = record { max_calls = 2; windows = ("a", 1000 ∷ 2000 ∷ []) ∷ []; is_cleaning = false }

abbrev events : List (ℕ × Event)
events =
    (1000, call "a")
    ∷ (2000, call "b")
    ∷ (3000, call_tool "a" 1)
    ∷ (61500, call "a")
    ∷ (62000, clean)
    ∷ []

admitted : admissions "a" (create 2) events ≡ 1000 ∷ 61500 ∷ []
unfolding admissions RateLimiter.create RateLimiter.check paygate_mcp.RateLimiter.Window.step
    RateLimiter.entry_of Dict.get RateLimiter.record_call RateLimiter.record_custom Dict.set
    RateLimiter.check_custom
admitted = refl

admissions-IsSpread_example :
    length (filter (in_window window_ms 61600) (admissions "a" (create 2) events)) ≤ 2
admissions-IsSpread_example = admissions-IsSpread 2 "a" 2 events (ground arith) (ground arith) 61600

busy_used : used "a" 3000 busy ≡ 2
unfolding RateLimiter.entry_of Dict.get
busy_used = refl

busy_denies : (check "a" 3000 busy).0.allowed ≡ false
unfolding RateLimiter.check RateLimiter.entry_of Dict.get
busy_denies = refl

check_iff_example :
    ((Quota.check 5 none noon alice).0 ≡ none)
    ↔ IsWithin small_quota (Quota.record_call 5 noon (Quota.check 5 none noon alice).1)
check_iff_example = check_iff small_quota none noon alice refl 5

-- A call at noon and a batch of two a day later, newest first.
abbrev uses : List Use
uses =
    record { time = 1767355200000; calls = 2; charged = 7 }
    ∷ record { time = 1767268800000; calls = 1; charged = 5 }
    ∷ []

days : (day_of 1767355200000 ≡ 20455) × (day_of 1767268800000 ≡ 20454)
unfolding day_of
days = (refl, refl)

months : (month_of 1767355200000 ≡ 24312) × (month_of 1767268800000 ≡ 24312)
unfolding month_of day_of paygate_mcp.Calendar.month_of_day
months = (refl, refl)

record_all-IsCounted_example : IsCounted uses (record_all uses alice)
record_all-IsCounted_example =
    record_all-IsCounted uses alice (ground (arith, days)) (ground (arith, months)) (record {
      daily_calls = refl;
      daily_credits = refl;
      monthly_calls = refl;
      monthly_credits = refl;
    })

slash : split b'/' (codes "10.0.0.0/8") ≡ codes "10.0.0.0" ∷ codes "8" ∷ []
unfolding split
slash = refl

prefix_length : Ip.in_range 32 (parse_int (codes "8")) ≡ some 8
unfolding parse_int Ip.parse_digits Ip.trim_start Ip.digits_value Ip.is_space
prefix_length = refl

client : ip_to_number (codes "10.1.2.3") ≡ some 167838211
unfolding ip_to_number Ip.join_parts
client = refl

office_range : ip_to_number (codes "10.0.0.0") ≡ some 167772160
unfolding ip_to_number Ip.join_parts
office_range = refl

match_cidr_iff_example :
    (match_cidr (codes "10.1.2.3") (codes "10.0.0.0/8") ≡ true)
    ↔ (167838211 / 2 ^ (32 - 8) ≡ 167772160 / 2 ^ (32 - 8))
match_cidr_iff_example =
    match_cidr_iff (codes "10.1.2.3") (codes "10.0.0.0/8") (codes "10.0.0.0") (codes "8") [] 8
      167838211 167772160 slash prefix_length client office_range

abbrev event : ℕ → UsageEvent
event t = record {
  timestamp = t;
  api_key = "pg_a";
  key_name = "alice";
  tool = "search";
  credits_charged = 5;
  is_refund = false;
  allowed = true;
  deny_reason = none;
  namespace = none;
}

abbrev log : UsageMeter
log = record { events = event 1 ∷ event 2 ∷ []; max_events = 4 }

abbrev more : List UsageEvent
more = event 3 ∷ event 4 ∷ event 5 ∷ []
