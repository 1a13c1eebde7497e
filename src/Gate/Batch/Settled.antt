-- ===== src/Gate/Batch/Settled.antt =====
-- What a batch that `evaluateBatch` of src/gate.ts lets through leaves in the store.
use paygate_mcp.Base.{
  ℕ, ◌≤◌, String, ◌≡◌, refl, sym, subst, ◌∙◌, true, none, some, List, [], ◌∷◌, arith, length,
}
use paygate_mcp.Base.Text.{str_eq_refl}
use paygate_mcp.Types.{ApiKeyRecord}
use paygate_mcp.Quota
use paygate_mcp.Keys.{KeyStore, get_key, deduct_credits, deducted}
use paygate_mcp.Gate.{Gate, Hooks, edit, record_usage}
use paygate_mcp.Gate.Topup.{check_auto_topup}
use paygate_mcp.Gate.Settle.{
  Holds, Holds-edit, Holds-trans, Holds-get_key, after_topup, check_auto_topup-Holds,
  deduct_credits-Holds, fresh,
}
use paygate_mcp.Gate.Batch.{BatchToolCall, charge_batch, record_calls, allow_batch}

-- The record after the charge of a batch, and after the top-up that may follow.
abbrev pub after_batch : ℕ → ℕ → ℕ → ApiKeyRecord → ApiKeyRecord
after_batch count total now r = Quota.record_batch count total now (deducted total now r)

abbrev pub settled_batch : ℕ → ℕ → ℕ → ApiKeyRecord → ApiKeyRecord
settled_batch count total now r = after_topup now (after_batch count total now r) r.auto_topup

after_batch-active :
    (count total now : ℕ) (r : ApiKeyRecord)
    → ((after_batch count total now r).active ≡ r.active)
      × ((after_batch count total now r).expires_at ≡ r.expires_at)
      × ((after_batch count total now r).auto_topup ≡ r.auto_topup)
unfolding Quota.record_batch Quota.reset_if_needed Quota.reset_day Quota.reset_month
after_batch-active count total now r = ground arith

record_calls-store :
    (now : ℕ) (key : String) (r : ApiKeyRecord) (calls : List BatchToolCall) (prices : List ℕ)
    (g : Gate)
    → (record_calls now key r calls prices g).store ≡ g.store
unfolding record_calls record_usage
record_calls-store now key r [] ps g = refl
record_calls-store now key r (c ∷ cs) [] g = refl
record_calls-store now key r (c ∷ cs) (p ∷ ps) g =
    record_calls-store now key r cs ps
      (record_usage now key r.name c.name p true none (some r.namespace) g)

module _ (hooks : Hooks) (key : String) (total now : ℕ) (calls : List BatchToolCall) (g : Gate)
    (r : ApiKeyRecord) (found : get_key key now g.store ≡ some r) (enough : total ≤ r.credits) where
  charge_batch-Holds :
      Holds key
        (after_batch (length calls) total now r)
        g.store
        (charge_batch hooks key total now calls g).store
  unfolding charge_batch
  charge_batch-Holds =
      let paid : KeyStore = (deduct_credits key total now g.store).1 in
      let h = deduct_credits-Holds key total now g.store r found enough in
      let f = Quota.record_batch (length calls) total now in
      Holds-trans key (deducted total now r) (f (deducted total now r)) g.store paid
        (edit key f paid) h
        (Holds-edit key f (deducted total now r) paid (h key ∙ ground (arith, str_eq_refl key)))

  pub allow_batch-Holds :
      (prices : List ℕ) (r0 : ApiKeyRecord)
      → Holds key
          (settled_batch (length calls) total now r)
          g.store
          (allow_batch hooks key total now calls prices r0 g).1.store
  unfolding allow_batch
  allow_batch-Holds prices r0 =
      let g1 : Gate = charge_batch hooks key total now calls g in
      let r1 : ApiKeyRecord = after_batch (length calls) total now r in
      let same = after_batch-active (length calls) total now r in
      let h = charge_batch-Holds in
      let found1 = Holds-get_key key now r r1 g.store g1.store h found same.0 same.1 in
      let s2 : KeyStore = (check_auto_topup key now g1).1.store in
      let all =
        Holds-trans key r1 (settled_batch (length calls) total now r) g.store g1.store s2 h (
          subst (λ t. Holds key (after_topup now r1 t) g1.store s2) same.2
            (check_auto_topup-Holds key now g1 r1 found1)) in
      subst (Holds key (settled_batch (length calls) total now r) g.store)
        (sym (record_calls-store now key r0 calls prices (check_auto_topup key now g1).1)) all

pub settled_batch-fresh :
    (count total now : ℕ) (r : ApiKeyRecord)
    → settled_batch count total now (fresh now r) ≡ settled_batch count total now r
unfolding Quota.record_batch Quota.reset_if_needed Quota.reset_day Quota.reset_month
settled_batch-fresh count total now r = ground arith
