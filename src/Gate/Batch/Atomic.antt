-- ===== src/Gate/Batch/Atomic.antt =====
-- `evaluateBatch` of src/gate.ts as a whole: all of a batch goes through, or nothing is charged.
use paygate_mcp.Base.{
  ℕ, suc, ◌+◌, ◌≤◌, ◌<◌, String, ◌≡◌, refl, sym, subst, ap, ◌∙◌, ◌⊎◌, inl, inr, true, false, Option,
  none, some, List, [], ◌∷◌, map, arith, length, Option-cases,
}
use paygate_mcp.Types.{ApiKeyRecord, Reason, GateDecision}
use paygate_mcp.Quota
use paygate_mcp.Quota.{effective_quota}
use paygate_mcp.Keys.{KeyStore, get_key}
use paygate_mcp.Gate.{Gate, Hooks, edit, credits_left, get_tool_price}
use paygate_mcp.Gate.Topup.{check_auto_topup}
use paygate_mcp.Gate.Checks.{Denial, check_funds}
use paygate_mcp.Gate.Usage.{check_funds_iff}
use paygate_mcp.Gate.Settle.{Holds, Holds-edit, Holds-trans, Holds-get_key, get_key-get, fresh}
use paygate_mcp.Gate.Batch.{
  BatchToolCall, BatchGateResult, BatchRequest, Scan, scan, start, check_batch_usage, allow_batch,
  evaluate_calls, refuse_all, refuse_at, refusals, charge_batch,
}
use paygate_mcp.Gate.Batch.Settled.{settled_batch, settled_batch-fresh, allow_batch-Holds}
use paygate_mcp.Gate.Batch.Scanned.{sum, scan-IsGathered}

-- What a batch may come to, with shadow mode off: nothing to do, a rejection that charges nothing and at
-- most resets the quota counters of the caller, or the settlement of the whole batch.
pub data BatchOutcome (hooks : Hooks) (now : ℕ) (q : BatchRequest) (g : Gate) (d : BatchGateResult)
    (s : KeyStore) : Type 0 where
  empty : q.calls ≡ [] → d.total_credits ≡ 0 → s ≡ g.store → BatchOutcome hooks now q g d s
  rejected :
      d.all_allowed ≡ false
      → sum (map (λ x. x.credits_charged) d.decisions) ≡ 0
      → s ≡ g.store
      → BatchOutcome hooks now q g d s
  rejected_late :
      (key : String) (r : ApiKeyRecord)
      → get_key key now g.store ≡ some r
      → d.all_allowed ≡ false
      → sum (map (λ x. x.credits_charged) d.decisions) ≡ 0
      → Holds key (fresh now r) g.store s
      → BatchOutcome hooks now q g d s
  settled :
      (key : String) (r : ApiKeyRecord)
      → get_key key now g.store ≡ some r
      → d.all_allowed ≡ true
      → map (λ x. x.credits_charged) d.decisions
        ≡ map (λ c. (get_tool_price hooks c.name c.input_bytes none g).0) q.calls
      → sum (map (λ x. x.credits_charged) d.decisions) ≡ d.total_credits
      → d.total_credits ≤ r.credits
      → (0 < r.spending_limit → r.total_spent + d.total_credits ≤ r.spending_limit)
      → Holds key (settled_batch (length q.calls) d.total_credits now r) g.store s
      → BatchOutcome hooks now q g d s

pub free-refuse_all :
    (calls : List BatchToolCall) (reason : Reason) (remaining : ℕ)
    → sum (map (λ x. x.credits_charged) (refuse_all calls reason remaining).decisions) ≡ 0
free-refuse_all [] reason remaining = refl
free-refuse_all (c ∷ cs) reason remaining = omega (arith, free-refuse_all cs reason remaining)

free-refusals :
    (j i remaining : ℕ) (reason : Reason) (calls : List BatchToolCall)
    → sum (map (λ x. x.credits_charged) (refusals j i remaining reason calls)) ≡ 0
unfolding refusals
free-refusals j i remaining reason [] = refl
free-refusals j i remaining reason (c ∷ cs) =
    omega (arith, free-refusals (suc j) i remaining reason cs)

paid_as_priced :
    (remaining : ℕ) (prices : List ℕ)
    → let ds : List GateDecision =
        map
          (λ p. record {
            allowed = true;
            reason = none;
            credits_charged = p;
            remaining_credits = remaining;
          })
          prices in
      map (λ x. x.credits_charged) ds ≡ prices
paid_as_priced remaining [] = refl
paid_as_priced remaining (p ∷ ps) = ap (λ ns. p ∷ ns) (paid_as_priced remaining ps)

module _ (hooks : Hooks) (key : String) (total count now : ℕ) (r : ApiKeyRecord) (g : Gate)
    (off : g.config.shadow_mode ≡ false) where
  usage_store :
      ((check_batch_usage hooks key total count now r g).1.store ≡ g.store)
      ⊎ ((check_batch_usage hooks key total count now r g).1.store ≡ edit key (fresh now) g.store)
  unfolding check_batch_usage Quota.check_batch
  usage_store = ground arith

  usage_passed :
      (check_batch_usage hooks key total count now r g).0 ≡ none
      → (check_funds key total now r g.store ≡ none)
        × ((check_batch_usage hooks key total count now r g).1.store ≡ edit key (fresh now) g.store)
  unfolding check_batch_usage Quota.check_batch
  usage_passed e = ground arith

module _ (hooks : Hooks) (key : String) (now : ℕ) (q : BatchRequest) (r : ApiKeyRecord) (g : Gate)
    (off : g.config.shadow_mode ≡ false) (found : get_key key now g.store ≡ some r) where
  abbrev scanned : Option (ℕ × Reason) × Scan
  scanned = scan hooks key now q.token_tools r g 0 q.calls (start g)

  abbrev gate : Gate
  gate = record g { limiter = scanned.1.limiter }

  abbrev total : ℕ
  total = scanned.1.total

  abbrev used : Option Denial × Gate
  used = check_batch_usage hooks key total (length q.calls) now r gate

  abbrev pub result : BatchGateResult × Gate
  result = evaluate_calls hooks key now q r g

  on_scan :
      (i : ℕ) (reason : Reason)
      → scanned.0 ≡ some (i, reason)
      → result ≡ (refuse_at q.calls i reason r.credits, gate)
  unfolding evaluate_calls
  on_scan i reason e = ground arith

  on_usage :
      (d : Denial)
      → scanned.0 ≡ none
      → used.0 ≡ some d
      → result ≡ (refuse_all q.calls d.told r.credits, used.1)
  unfolding evaluate_calls
  on_usage d e u = ground arith

  on_pass :
      scanned.0 ≡ none
      → used.0 ≡ none
      → result ≡ allow_batch hooks key total now q.calls scanned.1.prices r used.1
  unfolding evaluate_calls
  on_pass e u = ground arith

  reset-Holds :
      (s : KeyStore) → s ≡ edit key (fresh now) g.store → Holds key (fresh now r) g.store s
  reset-Holds s e =
      subst (Holds key (fresh now r) g.store) (sym e)
        (Holds-edit key (fresh now) r g.store (get_key-get key now g.store found))

  batch-Holds :
      (g2 : Gate)
      → g2.store ≡ edit key (fresh now) g.store
      → total ≤ r.credits
      → Holds key
          (settled_batch (length q.calls) total now r)
          g.store
          (allow_batch hooks key total now q.calls scanned.1.prices r g2).1.store
  unfolding Quota.reset_if_needed Quota.reset_day Quota.reset_month
  batch-Holds g2 e enough =
      let h = reset-Holds g2.store e in
      let s3 : KeyStore = (allow_batch hooks key total now q.calls scanned.1.prices r g2).1.store in
      let found2 =
        Holds-get_key key now r (fresh now r) g.store g2.store h found (ground arith)
          (ground arith) in
      Holds-trans key (fresh now r) (settled_batch (length q.calls) total now r) g.store g2.store s3
        h
        (subst (λ x. Holds key x g2.store s3) (settled_batch-fresh (length q.calls) total now r)
          (allow_batch-Holds hooks key total now q.calls g2 (fresh now r) found2 (ground arith)
            scanned.1.prices r))

  on_late :
      (d : Denial) → BatchOutcome hooks now q g (refuse_all q.calls d.told r.credits) used.1.store
  on_late d = elim (usage_store hooks key total (length q.calls) now r gate off) [
    | inl e ↦ rejected refl (free-refuse_all q.calls d.told r.credits) e
    | inr e ↦
        rejected_late key r found refl (free-refuse_all q.calls d.told r.credits)
          (reset-Holds used.1.store e)
  ]

  on_settled :
      scanned.0 ≡ none
      → used.0 ≡ none
      → BatchOutcome hooks now q g
          (allow_batch hooks key total now q.calls scanned.1.prices r used.1).0
          (allow_batch hooks key total now q.calls scanned.1.prices r used.1).1.store
  unfolding allow_batch
  on_settled e u =
      let all =
        scan-IsGathered hooks key now q.token_tools r g off 0 q.calls [] (start g)
          (record { prices = refl; total = refl }) e in
      let passed = usage_passed hooks key total (length q.calls) now r gate off u in
      let funds = (check_funds_iff key total now r g.store found).0 passed.0 in
      let ds =
        paid_as_priced
          (credits_left key now
            (check_auto_topup key now (charge_batch hooks key total now q.calls used.1)).1.store)
          scanned.1.prices in
      settled key r found refl (ds ∙ all.prices) (ap sum ds ∙ all.total) funds.0 funds.1
        (unfold allow_batch in batch-Holds used.1 passed.1 funds.0)

  pub calls-Outcome : BatchOutcome hooks now q g result.0 result.1.store
  calls-Outcome = elim (Option-cases scanned.0) [
    | inr ((i, reason), e) ↦
        subst (λ (x : BatchGateResult × Gate). BatchOutcome hooks now q g x.0 x.1.store)
          (sym (on_scan i reason e))
          (rejected refl (free-refusals 0 i r.credits reason q.calls) refl)
    | inl e ↦ elim (Option-cases used.0) [
      | inr (d, u) ↦
          subst (λ (x : BatchGateResult × Gate). BatchOutcome hooks now q g x.0 x.1.store)
            (sym (on_usage d e u)) (on_late d)
      | inl u ↦
          subst (λ (x : BatchGateResult × Gate). BatchOutcome hooks now q g x.0 x.1.store)
            (sym (on_pass e u)) (on_settled e u)
    ]
  ]
