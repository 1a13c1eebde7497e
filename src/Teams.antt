-- ===== src/Teams.antt =====
-- src/teams.ts: teams of keys with a shared budget and quota. Times are milliseconds and a method reads
-- the clock once; the random part of a team's id is an argument. Names, descriptions and tags are left
-- out. A record is shared with the map, so a change of it is written back.
pub mod Limits
pub mod Members
pub mod Spending
pub mod Saved
use paygate_mcp.Base.{
  ℕ, ◌+◌, ◌-◌, String, Bool, true, false, not, ◌&&◌, ◌||◌, Option, none, some, List, [], ◌∷◌, ◌++◌,
  ltb, leb, ◌==◌, length, if◌then◌else◌,
}
use paygate_mcp.Base.Dict
use paygate_mcp.Base.Dict.{Dict}
use paygate_mcp.Base.Text.{given, includes, str_eq}
use paygate_mcp.Calendar.{day_of, month_of}
use paygate_mcp.Types.{QuotaConfig}

pub record TeamRecord : Type 0 where
  pub id : String
  pub member_keys : List String
  pub budget : ℕ
  pub total_spent : ℕ
  pub quota : Option QuotaConfig
  pub quota_daily_calls : ℕ
  pub quota_monthly_calls : ℕ
  pub quota_daily_credits : ℕ
  pub quota_monthly_credits : ℕ
  pub quota_last_reset_day : ℕ
  pub quota_last_reset_month : ℕ
  pub active : Bool

pub record TeamManager : Type 0 where
  pub teams : Dict TeamRecord
  pub key_to_team : Dict String

abbrev pub empty : TeamManager
empty = record { teams = []; key_to_team = [] }

abbrev pub put_team : TeamRecord → String → TeamManager → TeamManager
put_team t id m = record m { teams = Dict.set id t m.teams }

-- `team_${hex}`
abbrev pub generate_id : String → String
generate_id hex = Prim.Native.String.◌++◌ "team_" hex

unfoldable pub create_team :
    String → ℕ → Option QuotaConfig → ℕ → TeamManager → TeamRecord × TeamManager
create_team hex budget quota now m =
    let team : TeamRecord = record {
      id = generate_id hex;
      member_keys = [];
      budget = budget;
      total_spent = 0;
      quota = quota;
      quota_daily_calls = 0;
      quota_monthly_calls = 0;
      quota_daily_credits = 0;
      quota_monthly_credits = 0;
      quota_last_reset_day = day_of now;
      quota_last_reset_month = month_of now;
      active = true;
    } in
    (team, put_team team (generate_id hex) m)

unfoldable pub get_team : String → TeamManager → Option TeamRecord
get_team id m = Dict.get id m.teams

abbrev pub active_only : Option TeamRecord → Option TeamRecord
active_only none = none
active_only (some t) = if t.active then some t else none

abbrev pub update_quota : Option (Option QuotaConfig) → TeamRecord → TeamRecord
update_quota none t = t
update_quota (some q) t = record t { quota = q }

abbrev pub update_budget : Option ℕ → TeamRecord → TeamRecord
update_budget none t = t
update_budget (some n) t = record t { budget = n }

unfoldable pub update_team :
    String → Option ℕ → Option (Option QuotaConfig) → TeamManager → Bool × TeamManager
update_team id budget quota m = elim (active_only (Dict.get id m.teams)) [
  | none ↦ (false, m)
  | some t ↦ (true, put_team (update_quota quota (update_budget budget t)) id m)
]

unfoldable pub unassign : List String → Dict String → Dict String
unassign [] index = index
unassign (key ∷ keys) index = unassign keys (Dict.delete key index)

unfoldable pub delete_team : String → TeamManager → Bool × TeamManager
delete_team id m = elim (active_only (Dict.get id m.teams)) [
  | none ↦ (false, m)
  | some t ↦ (
    true,
    record {
      teams = Dict.set id (record t { member_keys = []; active = false }) m.teams;
      key_to_team = unassign t.member_keys m.key_to_team;
    },
  )
]

pub data AssignResult : Type 0 where
  assigned team_not_found key_already_in_team team_full : AssignResult

abbrev elsewhere : String → Option String → Bool
elsewhere id none = false
elsewhere id (some other) = not (str_eq other id)

abbrev assign_to : String → String → TeamRecord → TeamManager → AssignResult × TeamManager
assign_to id key t m =
    if elsewhere id (given (Dict.get key m.key_to_team))
    then (key_already_in_team, m)
    else if includes key t.member_keys
    then (assigned, m)
    else if leb 100 (length t.member_keys)
    then (team_full, m)
    else (
      assigned,
      record {
        teams = Dict.set id (record t { member_keys = t.member_keys ++ key ∷ [] }) m.teams;
        key_to_team = Dict.set key id m.key_to_team;
      },
    )

unfoldable pub assign_key : String → String → TeamManager → AssignResult × TeamManager
assign_key id key m = elim (active_only (Dict.get id m.teams)) [
  | none ↦ (team_not_found, m)
  | some t ↦ assign_to id key t m
]

-- `splice` at `indexOf`: the first of equal entries goes.
unfoldable pub remove_first : String → List String → List String
remove_first key [] = []
remove_first key (x ∷ xs) = if str_eq x key then xs else x ∷ remove_first key xs

unfoldable pub remove_key : String → String → TeamManager → Bool × TeamManager
remove_key id key m = elim (Dict.get id m.teams) [
  | none ↦ (false, m)
  | some t ↦
      if includes key t.member_keys
      then (
        true,
        record {
          teams = Dict.set id (record t { member_keys = remove_first key t.member_keys }) m.teams;
          key_to_team = Dict.delete key m.key_to_team;
        },
      )
      else (false, m)
]

abbrev pub get_team_for_key : String → TeamManager → Option String
get_team_for_key key m = given (Dict.get key m.key_to_team)

-- The active team of a key, with its id, where there is one.
abbrev found_team : TeamManager → Option String → Option (String × TeamRecord)
found_team m none = none
found_team m (some id) = elim (active_only (Dict.get id m.teams)) [
  | none ↦ none
  | some t ↦ some (id, t)
]

unfoldable pub team_of : String → TeamManager → Option (String × TeamRecord)
team_of key m = found_team m (given (Dict.get key m.key_to_team))

abbrev budget_reason : ℕ → TeamRecord → Option String
budget_reason need t =
    if t.budget == 0
    then none
    else if ltb t.budget (t.total_spent + need)
    then some "team_budget_exceeded"
    else none

unfoldable pub check_budget : String → ℕ → TeamManager → Option String
check_budget key need m = elim (team_of key m) [ none ↦ none | some (id, t) ↦ budget_reason need t ]

unfoldable pub reset_quota_counters : ℕ → TeamRecord → TeamRecord
reset_quota_counters now t =
    let t' : TeamRecord = if t.quota_last_reset_day == day_of now then t else record t {
      quota_daily_calls = 0;
      quota_daily_credits = 0;
      quota_last_reset_day = day_of now;
    } in
    if t'.quota_last_reset_month == month_of now then t' else record t' {
      quota_monthly_calls = 0;
      quota_monthly_credits = 0;
      quota_last_reset_month = month_of now;
    }

abbrev pub quota_reason : ℕ → QuotaConfig → TeamRecord → Option String
quota_reason credits q t =
    if ltb 0 q.daily_call_limit && leb q.daily_call_limit t.quota_daily_calls
    then some "team_daily_call_limit"
    else if ltb 0 q.monthly_call_limit && leb q.monthly_call_limit t.quota_monthly_calls
    then some "team_monthly_call_limit"
    else if ltb 0 q.daily_credit_limit && ltb q.daily_credit_limit (t.quota_daily_credits + credits)
    then some "team_daily_credit_limit"
    else if ltb 0 q.monthly_credit_limit
        && ltb q.monthly_credit_limit (t.quota_monthly_credits + credits)
    then some "team_monthly_credit_limit"
    else none

abbrev check_team_quota :
    ℕ → ℕ → String → TeamRecord → Option QuotaConfig → TeamManager → Option String × TeamManager
check_team_quota credits now id t none m = (none, m)
check_team_quota credits now id t (some q) m =
    let t' = reset_quota_counters now t in (quota_reason credits q t', put_team t' id m)

unfoldable pub check_quota : String → ℕ → ℕ → TeamManager → Option String × TeamManager
check_quota key credits now m = elim (team_of key m) [
  | none ↦ (none, m)
  | some (id, t) ↦ check_team_quota credits now id t t.quota m
]

abbrev pub add_usage : ℕ → TeamRecord → TeamRecord
add_usage credits t = record t {
  total_spent = t.total_spent + credits;
  quota_daily_calls = t.quota_daily_calls + 1;
  quota_monthly_calls = t.quota_monthly_calls + 1;
  quota_daily_credits = t.quota_daily_credits + credits;
  quota_monthly_credits = t.quota_monthly_credits + credits;
}

unfoldable pub record_usage : String → ℕ → ℕ → TeamManager → TeamManager
record_usage key credits now m = elim (team_of key m) [
  | none ↦ m
  | some (id, t) ↦ put_team (add_usage credits (reset_quota_counters now t)) id m
]

-- The team check that src/server.ts hooks into the gate.
unfoldable pub team_check : String → ℕ → ℕ → TeamManager → Option String × TeamManager
team_check key credits now m = elim (check_budget key credits m) [
  | some reason ↦ (some reason, m)
  | none ↦ check_quota key credits now m
]

unfoldable pub to_json : TeamManager → List (String × TeamRecord)
to_json m = m.teams

unfoldable pub assign_all : String → List String → Dict String → Dict String
assign_all id [] index = index
assign_all id (key ∷ keys) index = assign_all id keys (Dict.set key id index)

abbrev pub restore_team : String → TeamRecord → TeamManager → TeamManager
restore_team id t m = record {
  teams = Dict.set id t m.teams;
  key_to_team = assign_all id t.member_keys m.key_to_team;
}

-- Records that `to_json` wrote have all their fields. An entry with an empty id is skipped.
unfoldable pub from_json : List (String × TeamRecord) → TeamManager → TeamManager
from_json [] m = m
from_json ((id, t) ∷ saved) m =
    from_json saved (elim (given (some id)) [ none ↦ m | some id' ↦ restore_team id t m ])
