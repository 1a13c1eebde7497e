-- ===== src/Teams/Spending.antt =====
-- Calls of teams' keys one after the other, as src/server.ts hooks src/teams.ts into the gate.
use paygate_mcp.Base.{
  ℕ, ◌≡◌, subst, Bool-cases, inl, inr, String, Option, none, some, List, [], ◌∷◌, arith,
  Option-cases,
}
use paygate_mcp.Base.Dict
use paygate_mcp.Base.Dict.{get-set, get-set_self}
use paygate_mcp.Base.Text.{str_eq}
use paygate_mcp.Types.{QuotaConfig}
use paygate_mcp.Teams.{
  TeamRecord, TeamManager, put_team, team_of, check_budget, check_quota, check_team_quota,
  budget_reason, team_check, record_usage, reset_quota_counters,
}
use paygate_mcp.Teams.Limits.{
  IsSolvent, used, reset-IsSolvent, team_check_lem, by_budget, found_here, IsUsed,
  team_check-record_usage,
}

-- Every team is solvent.
abbrev pub IsAllSolvent : TeamManager → Type 0
IsAllSolvent m = (id : String) (t : TeamRecord) → Dict.get id m.teams ≡ some t → IsSolvent t

-- A call of a key, as the gate makes it with the server's two hooks: the check, and the record of what
-- the call cost where it passes.
unfoldable pub spend : String → ℕ → ℕ → TeamManager → TeamManager
spend key credits now m =
    let (refusal, m1) = team_check key credits now m in
    elim refusal [ none ↦ record_usage key credits now m1 | some reason ↦ m1 ]

unfoldable pub spend_all : List (ℕ × String × ℕ) → TeamManager → TeamManager
spend_all [] m = m
spend_all ((now, key, credits) ∷ calls) m = spend_all calls (spend key credits now m)

module _ (key : String) (credits now : ℕ) (m : TeamManager) (h : IsAllSolvent m) where
  put_team-IsAllSolvent :
      (id : String) (t : TeamRecord) → IsSolvent t → IsAllSolvent (put_team t id m)
  put_team-IsAllSolvent id t s j t' e = elim (Bool-cases (str_eq id j)) [
    | inl b ↦ subst IsSolvent (ground (arith, get-set id j t m.teams)) s
    | inr b ↦ h j t' (ground (arith, get-set id j t m.teams))
  ]

  used-IsAllSolvent :
      (id : String) (t : TeamRecord) (m' : TeamManager)
      → IsSolvent (used credits now t)
      → IsUsed credits now id t m m'
      → IsAllSolvent m'
  used-IsAllSolvent id t m' s u j t' e = elim (Bool-cases (str_eq id j)) [
    | inl b ↦ subst IsSolvent (ground (arith, u j)) s
    | inr b ↦ h j t' (ground (arith, u j))
  ]

  pub refused-IsAllSolvent :
      (id : String) (t : TeamRecord)
      → team_of key m ≡ some (id, t)
      → IsAllSolvent (team_check key credits now m).1
  refused-IsAllSolvent id t found =
      rw (team_check_lem key credits now m id t found) (by_reason (budget_reason credits t))
    where
      by_quota :
          (quota : Option QuotaConfig) → IsAllSolvent (check_team_quota credits now id t quota m).1
      by_quota none = h
      by_quota (some q) =
          put_team-IsAllSolvent id (reset_quota_counters now t)
            (reset-IsSolvent credits now t (h id t (found_here key credits now m id t found)))

      by_reason :
          (reason : Option String) → IsAllSolvent (by_budget key credits now m id t found reason).1
      by_reason none = by_quota t.quota
      by_reason (some reason) = h

  no_team : team_of key m ≡ none → spend key credits now m ≡ m
  unfolding spend team_check check_budget check_quota record_usage
  no_team e = ground arith

  pub spend-IsAllSolvent : IsAllSolvent (spend key credits now m)
  unfolding spend
  spend-IsAllSolvent = elim (Option-cases (team_of key m)) [
    | inl e ↦ rw (no_team e) h
    | inr ((id, t), found) ↦
        let both = team_check-record_usage key credits now m id t found in
        elim (Option-cases (team_check key credits now m).0) [
          | inl e ↦
              rw (spend, e)
                (used-IsAllSolvent id t
                  (record_usage key credits now (team_check key credits now m).1) (both.0.0 e)
                  (both.1 e))
          | inr (reason, e) ↦ rw (spend, e) (refused-IsAllSolvent id t found)
        ]
  ]

-- Where every team is within its budget and its quota, every team still is after any calls of any keys,
-- each of which the server checks and, where the check passes, records.
pub spend_all-IsAllSolvent :
    (calls : List (ℕ × String × ℕ)) (m : TeamManager)
    → IsAllSolvent m
    → IsAllSolvent (spend_all calls m)
unfolding spend_all
spend_all-IsAllSolvent [] m h = h
spend_all-IsAllSolvent ((now, key, credits) ∷ calls) m h =
    spend_all-IsAllSolvent calls (spend key credits now m) (spend-IsAllSolvent key credits now m h)
