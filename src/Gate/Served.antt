-- ===== src/Gate/Served.antt =====
-- Requests one after the other through src/gate.ts and src/teams.ts, as src/server.ts connects them.
use paygate_mcp.Base.{
  ℕ, String, ◌≡◌, ◌⊎◌, refl, ap, subst, sym, ◌∙◌, inl, inr, Option, none, some, List, [], ◌∷◌,
  arith, Option-cases,
}
use paygate_mcp.Types.{GateDecision, QuotaConfig}
use paygate_mcp.Plugins.{Plugin}
use paygate_mcp.Gate.{Gate, GateConfig, Hooks, Request, get_tool_price, record_usage}
use paygate_mcp.Gate.Checks.{check_usage}
use paygate_mcp.Gate.Topup.{check_auto_topup}
use paygate_mcp.Gate.Evaluate.{evaluate, evaluate_request, evaluate_key, overridden, allow, charge}
use paygate_mcp.Gate.Budget.{AllLawful, evaluate-AllLawful}
use paygate_mcp.Gate.Teamed.{server_hooks, team_usages, IsFiltered, evaluate-IsFiltered}
use paygate_mcp.Teams
use paygate_mcp.Teams.{TeamManager, team_check}
use paygate_mcp.Teams.Spending.{IsAllSolvent, spend, spend-IsAllSolvent}

abbrev team_checker : ℕ → TeamManager → String → ℕ → Option String
team_checker now m key credits = (team_check key credits now m).0

unfoldable pub check_all : ℕ → List (String × ℕ) → TeamManager → TeamManager
check_all now [] m = m
check_all now ((key, credits) ∷ calls) m = check_all now calls (team_check key credits now m).1

unfoldable pub record_all : ℕ → List (String × ℕ) → TeamManager → TeamManager
record_all now [] m = m
record_all now ((key, credits) ∷ calls) m =
    record_all now calls (Teams.record_usage key credits now m)

abbrev quiet : Gate → Gate
quiet g = record g { notices = [] }

-- A request. The calls that the team checker is asked about, and whose teams it may reset, are those
-- that the gate would tell the recorder of if there were no checker.
unfoldable pub serve :
    List Plugin → ℕ → Request → Gate × TeamManager → GateDecision × Gate × TeamManager
serve plugins now q (g, m) =
    let asked = team_usages (evaluate (server_hooks plugins none) now q (quiet g)).1.notices in
    let (decision, g') =
      evaluate (server_hooks plugins (some (team_checker now m))) now q (quiet g) in
    (decision, g', record_all now (team_usages g'.notices) (check_all now asked m))

unfoldable pub serve_all :
    List Plugin → List (ℕ × Request) → Gate × TeamManager → Gate × TeamManager
serve_all plugins [] s = s
serve_all plugins ((now, q) ∷ calls) s =
    let (decision, g, m) = serve plugins now q s in serve_all plugins calls (g, m)

evaluate-config :
    (hooks : Hooks) (now : ℕ) (q : Request) (g : Gate)
    → (evaluate hooks now q g).1.config ≡ g.config
unfolding evaluate evaluate_request evaluate_key overridden record_usage get_tool_price allow charge
    check_auto_topup check_usage
evaluate-config hooks now q g = ground arith

module _ (plugins : List Plugin) (now : ℕ) (q : Request) (g : Gate) (m : TeamManager) where
  settled_teams :
      (asked told : List (String × ℕ))
      → IsFiltered (team_checker now m) asked told
      → let m' = record_all now told (check_all now asked m) in
        (m' ≡ m) ⊎ ((key : String) × (credits : ℕ) × (m' ≡ spend key credits now m))
  unfolding record_all check_all spend
  settled_teams asked told (inl (a, t)) = inl (rw (a, t) refl)
  settled_teams asked told (inr (key, credits, a, t)) = inr (
    key,
    credits,
    rw (a, t)
        (elim (Option-cases (team_check key credits now m).0) [
          | inl e ↦ rw (spend, e) refl
          | inr (reason, e) ↦ rw (spend, e) refl
        ]),
  )

  served :
      ((serve plugins now q (g, m)).1
        ≡ (evaluate (server_hooks plugins (some (team_checker now m))) now q (quiet g)).1)
      × (((serve plugins now q (g, m)).2 ≡ m)
          ⊎ ((key : String) × (credits : ℕ) × ((serve plugins now q (g, m)).2
                ≡ spend key credits now m)))
  unfolding serve
  served = (
    refl,
    settled_teams (team_usages (evaluate (server_hooks plugins none) now q (quiet g)).1.notices)
        (team_usages
          (evaluate (server_hooks plugins (some (team_checker now m))) now q (quiet g)).1.notices)
        (evaluate-IsFiltered plugins (team_checker now m) now q (quiet g)
          (unfold team_usages in refl)),
  )

  serve-IsAllSolvent : IsAllSolvent m → IsAllSolvent (serve plugins now q (g, m)).2
  serve-IsAllSolvent h = elim served.1 [
    | inl e ↦ subst IsAllSolvent (sym e) h
    | inr (key, credits, e) ↦ subst IsAllSolvent (sym e) (spend-IsAllSolvent key credits now m h)
  ]

  serve-config : (serve plugins now q (g, m)).1.config ≡ g.config
  serve-config =
      ap (λ (x : Gate). x.config) served.0
      ∙ evaluate-config (server_hooks plugins (some (team_checker now m))) now q (quiet g)

  serve-AllLawful :
      (global : Option QuotaConfig)
      → g.config.global_quota ≡ global
      → AllLawful global g.store
      → AllLawful global (serve plugins now q (g, m)).1.store
  serve-AllLawful global e all =
      subst (λ (x : Gate). AllLawful global x.store) (sym served.0)
        (subst
          (λ quota.
            AllLawful quota g.store
            → AllLawful quota
                (evaluate (server_hooks plugins (some (team_checker now m))) now q
                  (quiet g)).1.store)
          e (evaluate-AllLawful (server_hooks plugins (some (team_checker now m))) now q (quiet g))
          all)

all_served :
    (plugins : List Plugin) (global : Option QuotaConfig) (calls : List (ℕ × Request)) (g : Gate)
    (m : TeamManager)
    → g.config.global_quota ≡ global
    → AllLawful global g.store
    → IsAllSolvent m
    → AllLawful global (serve_all plugins calls (g, m)).0.store
      × IsAllSolvent (serve_all plugins calls (g, m)).1
unfolding serve_all
all_served plugins global [] g m e all solvent = (all, solvent)
all_served plugins global ((now, q) ∷ calls) g m e all solvent =
    let (decision, g', m') = serve plugins now q (g, m) in
    all_served plugins global calls g' m'
      (ap (λ (c : GateConfig). c.global_quota) (serve-config plugins now q g m) ∙ e)
      (serve-AllLawful plugins now q g m global e all)
      (serve-IsAllSolvent plugins now q g m solvent)

-- If every key keeps to its spending limit and its quota, and every team to its budget and its quota,
-- so do all keys and all teams after any sequence of requests, at any times and with any plugins,
-- when the gate is connected to the teams as the server connects it.
pub serve_all_lawful :
    (plugins : List Plugin) (calls : List (ℕ × Request)) (g : Gate) (m : TeamManager)
    → AllLawful g.config.global_quota g.store
    → IsAllSolvent m
    → let (g', m') = serve_all plugins calls (g, m) in
      AllLawful g.config.global_quota g'.store × IsAllSolvent m'
serve_all_lawful plugins calls g m all solvent =
    all_served plugins g.config.global_quota calls g m refl all solvent
