-- ===== src/Teams/Limits.antt =====
-- The limits that the teams of src/teams.ts keep, and the check that src/server.ts makes of them.
use paygate_mcp.Base.{
  ℕ, ◌+◌, ◌≡◌, ◌↔◌, refl, sym, subst, ap, ◌∙◌, inl, inr, String, true, Option, none, some, arith,
  if◌then◌else◌, Option-cases,
}
use paygate_mcp.Base.Dict
use paygate_mcp.Base.Dict.{get-set, get-set_self}
use paygate_mcp.Base.Text.{str_eq}
use paygate_mcp.Types.{QuotaConfig}
use paygate_mcp.Quota.Limits.{Fits}
use paygate_mcp.Teams.{
  TeamRecord, TeamManager, put_team, team_of, check_budget, check_quota, check_team_quota,
  budget_reason, quota_reason, team_check, record_usage, add_usage, reset_quota_counters,
}

-- The counters of a team lie within a quota.
pub record IsWithin (q : QuotaConfig) (t : TeamRecord) : Type 0 where
  pub daily_calls : Fits q.daily_call_limit t.quota_daily_calls
  pub monthly_calls : Fits q.monthly_call_limit t.quota_monthly_calls
  pub daily_credits : Fits q.daily_credit_limit t.quota_daily_credits
  pub monthly_credits : Fits q.monthly_credit_limit t.quota_monthly_credits

abbrev pub IsWithinQuota : Option QuotaConfig → TeamRecord → Type 0
IsWithinQuota none t = Unit {0}
IsWithinQuota (some q) t = IsWithin q t

-- A team has spent no more than its budget, and its counters lie within its quota; a limit of 0 is none.
pub record IsSolvent (t : TeamRecord) : Type 0 where
  pub budget : Fits t.budget t.total_spent
  pub quota : IsWithinQuota t.quota t

-- The team's record with a use on it.
abbrev pub used : ℕ → ℕ → TeamRecord → TeamRecord
used credits now t = add_usage credits (reset_quota_counters now t)

quota_reason_iff :
    (credits : ℕ) (q : QuotaConfig) (t : TeamRecord)
    → (quota_reason credits q t ≡ none) ↔ IsWithin q (add_usage credits t)
quota_reason_iff credits q t = (λ e. ground arith, λ h. ground arith)

module _ (credits now : ℕ) (t : TeamRecord) where
  budget_reason_iff : (budget_reason credits t ≡ none) ↔ Fits t.budget (t.total_spent + credits)
  budget_reason_iff = (λ e. ground arith, λ h. ground arith)

  reset_twice : reset_quota_counters now (reset_quota_counters now t) ≡ reset_quota_counters now t
  unfolding reset_quota_counters
  reset_twice = ground arith

  reset_keeps :
      ((reset_quota_counters now t).quota ≡ t.quota)
      × ((reset_quota_counters now t).budget ≡ t.budget)
      × ((reset_quota_counters now t).total_spent ≡ t.total_spent)
      × ((reset_quota_counters now t).active ≡ t.active)
  unfolding reset_quota_counters
  reset_keeps = ground arith

  reset-IsWithin : (q : QuotaConfig) → IsWithin q t → IsWithin q (reset_quota_counters now t)
  unfolding reset_quota_counters
  reset-IsWithin q h = ground arith

  reset-IsWithinQuota :
      (quota : Option QuotaConfig)
      → IsWithinQuota quota t
      → IsWithinQuota quota (reset_quota_counters now t)
  reset-IsWithinQuota none h = tt
  reset-IsWithinQuota (some q) h = reset-IsWithin q h

  check_team_quota_iff :
      (quota : Option QuotaConfig) (id : String) (m : TeamManager)
      → ((check_team_quota credits now id t quota m).0 ≡ none)
        ↔ IsWithinQuota quota (used credits now t)
  check_team_quota_iff none id m = (λ e. tt, λ h. refl)
  check_team_quota_iff (some q) id m = quota_reason_iff credits q (reset_quota_counters now t)

  used_iff :
      IsSolvent (used credits now t)
      ↔ (Fits t.budget (t.total_spent + credits) × IsWithinQuota t.quota (used credits now t))
  used_iff = (
    λ s. (
      ground (arith, s.budget, reset_keeps),
      subst (λ quota. IsWithinQuota quota (used credits now t)) reset_keeps.0 s.quota,
    ),
    λ h. record {
      budget = ground (arith, h.0, reset_keeps);
      quota = subst (λ quota. IsWithinQuota quota (used credits now t)) (sym reset_keeps.0) h.1;
    },
  )

  pub reset-IsSolvent : IsSolvent t → IsSolvent (reset_quota_counters now t)
  reset-IsSolvent s = record {
    budget = ground (arith, s.budget, reset_keeps);
    quota =
        subst (λ quota. IsWithinQuota quota (reset_quota_counters now t)) (sym reset_keeps.0)
          (reset-IsWithinQuota t.quota s.quota);
  }

-- The check, for a key of an active team.
module _ (key : String) (credits now : ℕ) (m : TeamManager) (id : String) (t : TeamRecord)
    (found : team_of key m ≡ some (id, t)) where
  check_budget_team : check_budget key credits m ≡ budget_reason credits t
  unfolding check_budget
  check_budget_team = rw (check_budget, found) refl

  check_quota_team : check_quota key credits now m ≡ check_team_quota credits now id t t.quota m
  unfolding check_quota
  check_quota_team = rw (check_quota, found) refl

  record_usage_team : record_usage key credits now m ≡ put_team (used credits now t) id m
  unfolding record_usage
  record_usage_team = rw (record_usage, found) refl

  pub found_here : Dict.get id m.teams ≡ some t
  unfolding team_of
  found_here = ground arith

  -- The team of the key after its record is written back.
  team_of-put_team :
      (t' : TeamRecord) → t'.active ≡ true → team_of key (put_team t' id m) ≡ some (id, t')
  unfolding team_of
  team_of-put_team t' a = ground (arith, get-set_self id t' m.teams)

  abbrev pub by_budget : Option String → Option String × TeamManager
  by_budget none = check_team_quota credits now id t t.quota m
  by_budget (some reason) = (some reason, m)

  pub team_check_lem : team_check key credits now m ≡ by_budget (budget_reason credits t)
  unfolding team_check
  team_check_lem = elim (Option-cases (budget_reason credits t)) [
    | inl e ↦ rw (team_check, check_budget_team, e) check_quota_team
    | inr (reason, e) ↦ rw (team_check, check_budget_team, e) refl
  ]

  team_check_iff :
      ((team_check key credits now m).0 ≡ none)
      ↔ (Fits t.budget (t.total_spent + credits) × IsWithinQuota t.quota (used credits now t))
  team_check_iff =
      let b = budget_reason_iff credits now t in
      let q = check_team_quota_iff credits now t t.quota id m in
      rw team_check_lem (elim (Option-cases (budget_reason credits t)) [
        | inl e ↦ rw e (λ h. (b.0 e, q.0 h), λ h. q.1 h.1)
        | inr (reason, e) ↦ rw e (λ h. ground arith, λ h. ground (arith, b.1 h.0))
      ])

  found_active : t.active ≡ true
  unfolding team_of
  found_active = ground arith

-- The team has the use on it, and the other teams are as they were.
abbrev pub IsUsed : ℕ → ℕ → String → TeamRecord → TeamManager → TeamManager → Type 0
IsUsed credits now id t m m' =
    (j : String)
    → Dict.get j m'.teams ≡ (if str_eq id j then some (used credits now t) else Dict.get j m.teams)

module _ (key : String) (credits now : ℕ) (m : TeamManager) (id : String) (t : TeamRecord)
    (found : team_of key m ≡ some (id, t)) where
  recorded :
      (quota : Option QuotaConfig)
      → IsUsed credits now id t m
          (record_usage key credits now (check_team_quota credits now id t quota m).1)
  recorded none j =
      rw (record_usage_team key credits now m id t found)
        (get-set id j (used credits now t) m.teams)
  recorded (some q) j =
      let t1 : TeamRecord = reset_quota_counters now t in
      let found1 =
        team_of-put_team key credits now m id t found t1
          ((reset_keeps credits now t).3 ∙ found_active key credits now m id t found) in
      rw
        (
          record_usage_team key credits now (put_team t1 id m) id t1 found1,
          reset_twice credits now t,
        )
        (ground (
          arith,
          get-set id j (used credits now t) (put_team t1 id m).teams,
          get-set id j t1 m.teams,
        ))

  team_check-recorded :
      (team_check key credits now m).0 ≡ none
      → IsUsed credits now id t m (record_usage key credits now (team_check key credits now m).1)
  team_check-recorded ok = elim (Option-cases (budget_reason credits t)) [
    | inl e ↦ rw (team_check_lem key credits now m id t found, e) (recorded t.quota)
    | inr (reason, e) ↦ λ j. ground (
      arith,
      ap (λ (x : Option String × TeamManager). x.0) (team_check_lem key credits now m id t found),
    )
  ]

-- For a key of an active team, the server's check of a call passes exactly when the team's record with
-- the call on it, after the resets of day and month, is within the team's budget and within all four
-- limits of its quota; and then recording the call after the check writes that record and leaves the
-- other teams as they were.
pub team_check-record_usage :
    (key : String) (credits now : ℕ) (m : TeamManager) (id : String) (t : TeamRecord)
    → team_of key m ≡ some (id, t)
    → let (refusal, m1) = team_check key credits now m in
      ((refusal ≡ none) ↔ IsSolvent (used credits now t))
      × (refusal ≡ none → IsUsed credits now id t m (record_usage key credits now m1))
team_check-record_usage key credits now m id t found =
    let check = team_check_iff key credits now m id t found in
    let solvent = used_iff credits now t in
    (
      (λ e. solvent.1 (check.0 e), λ h. check.1 (solvent.0 h)),
      team_check-recorded key credits now m id t found,
    )
