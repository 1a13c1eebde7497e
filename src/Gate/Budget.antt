-- ===== src/Gate/Budget.antt =====
-- Spending limits and quotas under `Gate.evaluate` of src/gate.ts.
use paygate_mcp.Base.{
  ℕ, ◌≤◌, ◌<◌, String, ◌≡◌, sym, subst, inl, inr, Option, some, arith, Bool-cases,
}
use paygate_mcp.Base.Dict.{get}
use paygate_mcp.Base.Text.{str_eq}
use paygate_mcp.Types.{QuotaConfig, ApiKeyRecord}
use paygate_mcp.Quota
use paygate_mcp.Quota.{effective_quota}
use paygate_mcp.Quota.Limits.{IsWithin, reset-IsWithin}
use paygate_mcp.Keys.{KeyStore}
use paygate_mcp.Gate.{Gate, Hooks, Request}
use paygate_mcp.Gate.Evaluate.{evaluate}
use paygate_mcp.Gate.Usage.{IsCovered}
use paygate_mcp.Gate.Settle.{Holds, get_key-get, fresh, settled}
use paygate_mcp.Gate.Admission.{untouched, reset, paid, price_of}
use paygate_mcp.Gate.Verdict.{evaluate-Outcome}

-- A record keeps to its spending limit, and to the quota that applies to it.
pub record IsLawful (global : Option QuotaConfig) (r : ApiKeyRecord) : Type 0 where
  pub spending : 0 < r.spending_limit → r.total_spent ≤ r.spending_limit
  pub quota : (c : QuotaConfig) → effective_quota r.quota global ≡ some c → IsWithin c r

-- Every record of the store does.
abbrev pub AllLawful : Option QuotaConfig → KeyStore → Type 0
AllLawful global s = (j : String) (r : ApiKeyRecord) → get j s.keys ≡ some r → IsLawful global r

fresh-IsLawful :
    (global : Option QuotaConfig) (now : ℕ) (r : ApiKeyRecord)
    → IsLawful global r
    → IsLawful global (fresh now r)
unfolding Quota.reset_if_needed Quota.reset_day Quota.reset_month
fresh-IsLawful global now r h = record {
  spending = ground (arith, h.spending);
  quota = λ c e. reset-IsWithin c r now (h.quota c (ground arith));
}

settled-IsLawful :
    (hooks : Hooks) (key : String) (price now : ℕ) (q : Request) (r : ApiKeyRecord) (g : Gate)
    → IsCovered hooks key price now q r g
    → IsLawful g.config.global_quota (settled price now r)
unfolding Quota.record_call Quota.check Quota.reset_if_needed Quota.reset_day Quota.reset_month
settled-IsLawful hooks key price now q r g v = record {
  spending = ground (arith, v.spending);
  quota = λ c e.
      let w = v.quota c (ground arith) in
      record {
        daily_calls = ground (arith, w.daily_calls);
        monthly_calls = ground (arith, w.monthly_calls);
        daily_credits = ground (arith, w.daily_credits);
        monthly_credits = ground (arith, w.monthly_credits);
      };
}

Holds-AllLawful :
    (global : Option QuotaConfig) (key : String) (r : ApiKeyRecord) (s s' : KeyStore)
    → Holds key r s s'
    → AllLawful global s
    → IsLawful global r
    → AllLawful global s'
Holds-AllLawful global key r s s' h all new j r' e = elim (Bool-cases (str_eq key j)) [
  | inl same ↦
      let eq : some r ≡ some r' = ground (arith, h j) in subst (IsLawful global) (ground arith) new
  | inr other ↦ all j r' (ground (arith, h j))
]

-- If every record keeps to its spending limit and its quota, so does every record after an evaluation,
-- whatever the request, the policies, the plugins and the mode, and whatever top-ups come with it.
pub evaluate-AllLawful :
    (hooks : Hooks) (now : ℕ) (q : Request) (g : Gate)
    → AllLawful g.config.global_quota g.store
    → AllLawful g.config.global_quota (evaluate hooks now q g).1.store
evaluate-AllLawful hooks now q g all =
    let global = g.config.global_quota in
    elim (evaluate-Outcome hooks now q g) [
      | untouched e ↦ subst (AllLawful global) (sym e) all
      | reset key r found h ↦
          Holds-AllLawful global key (fresh now r) g.store (evaluate hooks now q g).1.store h all
            (fresh-IsLawful global now r (all key r (get_key-get key now g.store found)))
      | paid key r found p c h ↦
          Holds-AllLawful global key (settled (price_of hooks q g) now r) g.store
            (evaluate hooks now q g).1.store h all
            (settled-IsLawful hooks key (price_of hooks q g) now q r g c)
    ]
