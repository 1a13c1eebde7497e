-- ===== src/Gate/Undo.antt =====
-- `refund` of src/gate.ts against the charge that it undoes.
use paygate_mcp.Base.{ℕ, ◌+◌, ◌≤◌, String, ◌≡◌, refl, subst, inl, inr, some, arith, Bool-cases, leb}
use paygate_mcp.Base.Dict.{get-set}
use paygate_mcp.Types.{ApiKeyRecord}
use paygate_mcp.Quota
use paygate_mcp.Keys.{KeyStore, get_key, add_credits}
use paygate_mcp.Gate.{Gate, Hooks, Request, edit}
use paygate_mcp.Gate.Evaluate.{charge}
use paygate_mcp.Gate.Refund.{refund, taken_back}
use paygate_mcp.Gate.Settle.{
  Holds, Holds-edit, Holds-trans, Holds-get_key, Holds-same, charge-Holds, after_charge,
  after_charge-active, get_key-get, fresh,
}

abbrev credited : ℕ → ApiKeyRecord → ApiKeyRecord
credited amount r = record r { credits = r.credits + amount }

add_credits-Holds :
    (key : String) (amount now : ℕ) (s : KeyStore) (r : ApiKeyRecord)
    → get_key key now s ≡ some r
    → Holds key (credited amount r) s (add_credits key amount now s).1
unfolding add_credits
add_credits-Holds key amount now s r e j = elim (Bool-cases (leb amount 0)) [
  | inl z ↦
      let same : credited amount r ≡ r = ground (arith, z) in
      let h = Holds-same key r s (get_key-get key now s e) j in ground (arith, z, h, same)
  | inr p ↦ ground (arith, p, get-set key j (credited amount r) s.keys)
]

-- The record that is left when a charge is refunded.
abbrev pub after_refund : ℕ → ApiKeyRecord → ApiKeyRecord
after_refund now r = record (fresh now r) { last_used_at = some now }

taken_back-charge :
    (price now : ℕ) (r : ApiKeyRecord)
    → price ≤ r.credits
    → taken_back price (credited price (after_charge price now r)) ≡ after_refund now r
unfolding Quota.record_call Quota.reset_if_needed Quota.reset_day Quota.reset_month Quota.unrecord
taken_back-charge price now r enough = ground arith

-- For a key that the store holds active and unexpired, with the credits for the price, a refund of
-- the price right after the charge gives the record back: credits, totals and quota counters are as
-- before the charge, up to the reset of a new day or month and the time of the last use, and no
-- other record changes.
pub refund-charge :
    (hooks : Hooks) (key tool : String) (price now : ℕ) (q : Request) (g : Gate) (r : ApiKeyRecord)
    → get_key key now g.store ≡ some r
    → price ≤ r.credits
    → Holds key
        (after_refund now r)
        g.store
        (refund key tool price now (charge hooks key price now q g)).store
unfolding refund
refund-charge hooks key tool price now q g r e enough =
    let s1 : KeyStore = (charge hooks key price now q g).store in
    let r1 : ApiKeyRecord = after_charge price now r in
    let same = after_charge-active price now r in
    let h1 = charge-Holds hooks key price now q g r e enough in
    let found1 = Holds-get_key key now r r1 g.store s1 h1 e same.0 same.1 in
    let s2 : KeyStore = (add_credits key price now s1).1 in
    let h2 = add_credits-Holds key price now s1 r1 found1 in
    let found2 = Holds-get_key key now r1 (credited price r1) s1 s2 h2 found1 refl refl in
    let s3 : KeyStore = edit key (taken_back price) s2 in
    let h3 =
      Holds-edit key (taken_back price) (credited price r1) s2 (get_key-get key now s2 found2) in
    let back = taken_back-charge price now r enough in
    rw (refund, found2)
      (Holds-trans key r1 (after_refund now r) g.store s1 s3 h1 (
        Holds-trans key (credited price r1) (after_refund now r) s1 s2 s3 h2
          (subst (λ x. Holds key x s2 s3) back h3)))
