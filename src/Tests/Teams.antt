-- ===== src/Tests/Teams.antt =====
-- The results on teams, on a manager with one team of two keys.
use paygate_mcp.Base.{
  ℕ, String, ◌≡◌, ◌↔◌, refl, subst, inl, inr, arith, Bool-cases, true, none, some, List, [], ◌∷◌,
}
use paygate_mcp.Base.Dict
use paygate_mcp.Base.Text.{given, includes, str_eq}
use paygate_mcp.Calendar.{day_of, month_of}
use paygate_mcp.Teams.{
  TeamRecord, TeamManager, empty, team_of, get_team_for_key, team_check, record_usage, to_json,
  from_json, create_team, assign_key, check_budget,
}
use paygate_mcp.Teams.Members.{members, IsIndexed}
use paygate_mcp.Teams.Members.Run.{
  Call, create, delete, assign, remove, run, apply, AllFresh, run-members,
}
use paygate_mcp.Teams.Limits.{IsSolvent, IsUsed, used, team_check-record_usage}
use paygate_mcp.Teams.Spending.{IsAllSolvent, spend_all, spend_all-IsAllSolvent}
use paygate_mcp.Teams.Saved.{from_json-to_json}
use paygate_mcp.Gate.Budget.{AllLawful}
use paygate_mcp.Gate.Served.{serve_all, serve_all_lawful}
use paygate_mcp.Tests.{noon, small_quota, gate, search}
use paygate_mcp.Tests.Gates.{store_lawful}

abbrev calls : List (ℕ × Call)
calls =
    (noon, create "1" 50 (some small_quota))
    ∷ (noon, assign "team_1" "pg_a")
    ∷ (noon, assign "team_1" "pg_b")
    ∷ (noon, create "2" 0 none)
    ∷ (noon, assign "team_2" "pg_a")
    ∷ (noon, remove "team_1" "pg_b")
    ∷ (noon, delete "team_2")
    ∷ []

calls-AllFresh : AllFresh calls empty
unfolding apply create_team assign_key Dict.get Dict.set given includes
calls-AllFresh = (refl, (tt, (tt, (refl, (tt, (tt, (tt, tt)))))))

run-members_example :
    let m = run calls empty in
    IsIndexed m
    × ((key id : String)
        → (includes key (members id m) ≡ true) ↔ (get_team_for_key key m ≡ some id))
    × ((key id : String) (t : TeamRecord)
        → (team_of key m ≡ some (id, t))
          ↔ ((Dict.get id m.teams ≡ some t) × (includes key t.member_keys ≡ true)))
run-members_example = run-members calls calls-AllFresh

abbrev crew : TeamRecord
crew = record {
  id = "team_1";
  member_keys = "pg_a" ∷ "pg_b" ∷ [];
  budget = 50;
  total_spent = 40;
  quota = some small_quota;
  quota_daily_calls = 1;
  quota_monthly_calls = 4;
  quota_daily_credits = 10;
  quota_monthly_credits = 40;
  quota_last_reset_day = day_of noon;
  quota_last_reset_month = month_of noon;
  active = true;
}

abbrev manager : TeamManager
manager = record {
  teams = ("team_1", crew) ∷ [];
  key_to_team = ("pg_a", "team_1") ∷ ("pg_b", "team_1") ∷ [];
}

crew_found : team_of "pg_a" manager ≡ some ("team_1", crew)
unfolding team_of Dict.get given
crew_found = refl

team_check-record_usage_example :
    let (refusal, m1) = team_check "pg_a" 5 noon manager in
    ((refusal ≡ none) ↔ IsSolvent (used 5 noon crew))
    × (refusal ≡ none → IsUsed 5 noon "team_1" crew manager (record_usage "pg_a" 5 noon m1))
team_check-record_usage_example =
    team_check-record_usage "pg_a" 5 noon manager "team_1" crew crew_found

refused_at_budget : (team_check "pg_a" 11 noon manager).0 ≡ some "team_budget_exceeded"
unfolding team_check team_of Dict.get given check_budget
refused_at_budget = refl

crew-IsSolvent : IsSolvent crew
crew-IsSolvent = record {
  budget = omega arith;
  quota = record {
    daily_calls = omega arith;
    monthly_calls = omega arith;
    daily_credits = omega arith;
    monthly_credits = omega arith;
  };
}

manager-IsAllSolvent : IsAllSolvent manager
unfolding Dict.get
manager-IsAllSolvent id t e = elim (Bool-cases (str_eq "team_1" id)) [
  | inl b ↦ subst IsSolvent (ground arith) crew-IsSolvent
  | inr b ↦ ground arith
]

spend_all-IsAllSolvent_example :
    IsAllSolvent (spend_all ((noon, "pg_a", 5) ∷ (noon, "pg_b", 9) ∷ []) manager)
spend_all-IsAllSolvent_example =
    spend_all-IsAllSolvent ((noon, "pg_a", 5) ∷ (noon, "pg_b", 9) ∷ []) manager manager-IsAllSolvent

from_json-to_json_example :
    let m = run calls empty in
    let m' = from_json (to_json m) empty in
    ((id : String) → Dict.get id m'.teams ≡ Dict.get id m.teams)
    × ((key : String) → Dict.get key m'.key_to_team ≡ Dict.get key m.key_to_team)
from_json-to_json_example = from_json-to_json (run calls empty) (run-members calls calls-AllFresh).0

serve_all_lawful_example :
    let (g', m') = serve_all [] ((noon, search) ∷ (noon, search) ∷ []) (gate, manager) in
    AllLawful none g'.store × IsAllSolvent m'
serve_all_lawful_example =
    serve_all_lawful [] ((noon, search) ∷ (noon, search) ∷ []) gate manager store_lawful
      manager-IsAllSolvent
