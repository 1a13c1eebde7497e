-- ===== src/Tests.antt =====
-- Runs of the model on concrete inputs: a store with two keys, a gate with a paid tool, and the
-- results, stated for these inputs, that the other modules prove for all.
mod Limits
mod Store
mod Gates
mod Batches
mod Servers
mod Teams
mod Tools
mod Keys
mod Admin
mod Sorting
mod Grouping
use paygate_mcp.Base.{ℕ, String, ◌≡◌, refl, Bool, true, false, Option, none, some, List, [], ◌∷◌}
use paygate_mcp.Base.Dict
use paygate_mcp.Base.Text.{given}
use paygate_mcp.RateLimiter
use paygate_mcp.Types.{QuotaConfig, ApiKeyRecord}
use paygate_mcp.Keys.{KeyStore, get_key}
use paygate_mcp.Gate.{Gate, GateConfig, Hooks, Request}

-- 2026-01-01, 12:00 UTC
abbrev noon : ℕ
noon = 1767268800000

abbrev small_quota : QuotaConfig
small_quota = record {
  daily_call_limit = 3;
  monthly_call_limit = 0;
  daily_credit_limit = 20;
  monthly_credit_limit = 100;
  hourly_call_limit = 2;
  hourly_credit_limit = 10;
}

abbrev alice : ApiKeyRecord
alice = record {
  key = "pg_a";
  name = "alice";
  credits = 12;
  total_spent = 8;
  total_calls = 2;
  created_at = 0;
  last_used_at = none;
  active = true;
  spending_limit = 30;
  allowed_tools = "search" ∷ "read" ∷ [];
  denied_tools = [];
  expires_at = none;
  quota = some small_quota;
  tags = [];
  ip_allowlist = "10.0.0.0/8" ∷ [];
  namespace = "default";
  group = none;
  suspended = false;
  allowed_countries = [];
  denied_countries = [];
  alias = some "main";
  auto_topup = none;
  auto_topup_today_count = 0;
  auto_topup_last_reset_day = 0;
  quota_daily_calls = 0;
  quota_monthly_calls = 0;
  quota_daily_credits = 0;
  quota_monthly_credits = 0;
  quota_last_reset_day = 20454;
  quota_last_reset_month = 24312;
  notes = record { timestamp = 0; author = "admin"; text = "first" } ∷ [];
  webhook_url = some "https://example.com/hook";
  webhook_secret = none;
}

abbrev bob : ApiKeyRecord
bob = record alice { key = "pg_b"; name = "bob"; credits = 3; alias = none }

abbrev store : KeyStore
store = record { keys = ("pg_a", alice) ∷ ("pg_b", bob) ∷ []; aliases = ("main", "pg_a") ∷ [] }

abbrev gate : Gate
gate = record {
  config = record {
    shadow_mode = false;
    default_credits_per_call = 1;
    tool_pricing =
        (
          "search",
          record { credits_per_call = 5; rate_limit_per_min = 2; credits_per_kb_input = 0 },
        )
        ∷ [];
    global_quota = none;
  };
  store = store;
  limiter = RateLimiter.create 10;
  groups = none;
  meter = record { events = []; max_events = 8 };
  notices = [];
}

abbrev hooks : Hooks
hooks = record { plugins = []; team_checker = none; has_team_recorder = false }

abbrev search : Request
search = record {
  api_key = some "pg_a";
  tool = "search";
  input_bytes = none;
  client_ip = some "10.1.2.3";
  token_tools = [];
  country = none;
}

alice_found : get_key "pg_a" noon store ≡ some alice
unfolding get_key Dict.get
alice_found = refl

alice_named : given search.api_key ≡ some "pg_a"
unfolding given
alice_named = refl
