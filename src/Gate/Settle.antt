-- ===== src/Gate/Settle.antt =====
-- What an allowed call in src/gate.ts leaves in the store, record by record.
use text.Mathlib.TextEquality.{eq_iff}
use paygate_mcp.Base.{
  ℕ, ◌≤◌, String, ◌≡◌, refl, subst, ap, ◌∙◌, inl, inr, ◌&&◌, Option, none, some, arith, ltb, leb,
  if◌then◌else◌, Option-cases,
}
use paygate_mcp.Base.Dict.{get, get-set}
use paygate_mcp.Base.Text.{str_eq, str_eq_refl}
use paygate_mcp.Calendar.{day_of}
use paygate_mcp.Types.{ApiKeyRecord, AutoTopup}
use paygate_mcp.Quota
use paygate_mcp.Keys.{KeyStore, get_key, deduct_credits, deducted, put, has_expired}
use paygate_mcp.Gate.{Gate, Hooks, Request, edit, record_usage}
use paygate_mcp.Gate.Topup.{topup_day, topped, topup_key, check_auto_topup}
use paygate_mcp.Gate.Evaluate.{charge, allow}

-- `key` holds `r`, and all else is as in `s`.
abbrev pub Holds : String → ApiKeyRecord → KeyStore → KeyStore → Type 0
Holds key r s s' = (j : String) → get j s'.keys ≡ (if str_eq key j then some r else get j s.keys)

pub get_key-get :
    (key : String) (now : ℕ) (s : KeyStore) {r : ApiKeyRecord}
    → get_key key now s ≡ some r
    → get key s.keys ≡ some r
unfolding get_key
get_key-get key now s e = elim (Option-cases (get key s.keys)) [
  | inl n ↦ ground arith
  | inr (r', f) ↦ ground arith
]

Holds-put : (key : String) (r : ApiKeyRecord) (s : KeyStore) → Holds key r s (put key r s)
Holds-put key r s j = get-set key j r s.keys

pub Holds-same :
    (key : String) (r : ApiKeyRecord) (s : KeyStore) → get key s.keys ≡ some r → Holds key r s s
Holds-same key r s e j = ground (arith, e, eq_iff key j)

pub Holds-trans :
    (key : String) (r r' : ApiKeyRecord) (s s' s'' : KeyStore)
    → Holds key r s s'
    → Holds key r' s' s''
    → Holds key r' s s''
Holds-trans key r r' s s' s'' h h' j = ground (arith, h j, h' j)

pub Holds-edit :
    (key : String) (f : ApiKeyRecord → ApiKeyRecord) (r : ApiKeyRecord) (s : KeyStore)
    → get key s.keys ≡ some r
    → Holds key (f r) s (edit key f s)
Holds-edit key f r s e j = rw (e, edit) (get-set key j (f r) s.keys)

-- The record after the automatic top-up.
abbrev pub after_topup : ℕ → ApiKeyRecord → Option AutoTopup → ApiKeyRecord
after_topup now r none = r
after_topup now r (some t) =
    let r' = topup_day (day_of now) r in
    if leb t.threshold r.credits
    then r
    else if ltb 0 t.max_daily && leb t.max_daily r'.auto_topup_today_count
    then r'
    else topped t r'

topup_key-Holds :
    (key : String) (now : ℕ) (t : Option AutoTopup) (g : Gate) (r : ApiKeyRecord)
    → get key g.store.keys ≡ some r
    → Holds key (after_topup now r t) g.store (topup_key key now r t g).1.store
topup_key-Holds key now none g r e j = Holds-same key r g.store e j
topup_key-Holds key now (some t) g r e j = ground (
  arith,
  Holds-same key r g.store e j,
  get-set key j (topup_day (day_of now) r) g.store.keys,
  get-set key j (topped t (topup_day (day_of now) r)) g.store.keys,
)

pub check_auto_topup-Holds :
    (key : String) (now : ℕ) (g : Gate) (r : ApiKeyRecord)
    → get_key key now g.store ≡ some r
    → Holds key (after_topup now r r.auto_topup) g.store (check_auto_topup key now g).1.store
unfolding check_auto_topup
check_auto_topup-Holds key now g r e j =
    rw (check_auto_topup, e)
      (topup_key-Holds key now r.auto_topup g r (get_key-get key now g.store e) j)

-- The record after the charge.
abbrev pub after_charge : ℕ → ℕ → ApiKeyRecord → ApiKeyRecord
after_charge price now r = Quota.record_call price now (deducted price now r)

pub deduct_credits-Holds :
    (key : String) (price now : ℕ) (s : KeyStore) (r : ApiKeyRecord)
    → get_key key now s ≡ some r
    → price ≤ r.credits
    → Holds key (deducted price now r) s (deduct_credits key price now s).1
unfolding deduct_credits
deduct_credits-Holds key price now s r e enough j =
    ground (arith, get-set key j (deducted price now r) s.keys)

pub charge-Holds :
    (hooks : Hooks) (key : String) (price now : ℕ) (q : Request) (g : Gate) (r : ApiKeyRecord)
    → get_key key now g.store ≡ some r
    → price ≤ r.credits
    → Holds key (after_charge price now r) g.store (charge hooks key price now q g).store
unfolding charge
charge-Holds hooks key price now q g r e enough =
    let paid : KeyStore = (deduct_credits key price now g.store).1 in
    let h = deduct_credits-Holds key price now g.store r e enough in
    Holds-trans key (deducted price now r) (after_charge price now r) g.store paid
      (edit key (Quota.record_call price now) paid) h
      (Holds-edit key (Quota.record_call price now) (deducted price now r) paid
        (h key ∙ ground (arith, str_eq_refl key)))

pub Holds-get_key :
    (key : String) (now : ℕ) (r r' : ApiKeyRecord) (s s' : KeyStore)
    → Holds key r' s s'
    → get_key key now s ≡ some r
    → r'.active ≡ r.active
    → r'.expires_at ≡ r.expires_at
    → get_key key now s' ≡ some r'
unfolding get_key
Holds-get_key key now r r' s s' h e a x =
    let found = get_key-get key now s e in
    ground (arith, h key, str_eq_refl key, found, ap (has_expired now) refl)

pub after_charge-active :
    (price now : ℕ) (r : ApiKeyRecord)
    → ((after_charge price now r).active ≡ r.active)
      × ((after_charge price now r).expires_at ≡ r.expires_at)
      × ((after_charge price now r).auto_topup ≡ r.auto_topup)
unfolding Quota.record_call Quota.reset_if_needed Quota.reset_day Quota.reset_month
after_charge-active price now r = ground arith

-- The record that an allowed call leaves: charged, counted, and topped up where that is due.
abbrev pub settled : ℕ → ℕ → ApiKeyRecord → ApiKeyRecord
settled price now r = after_topup now (after_charge price now r) r.auto_topup

pub allow-Holds :
    (hooks : Hooks) (key : String) (price now : ℕ) (q : Request) (g : Gate) (r r0 : ApiKeyRecord)
    → get_key key now g.store ≡ some r
    → price ≤ r.credits
    → Holds key (settled price now r) g.store (allow hooks key price now q r0 g).1.store
unfolding allow record_usage
allow-Holds hooks key price now q g r r0 e enough =
    let g1 : Gate = charge hooks key price now q g in
    let same = after_charge-active price now r in
    let h = charge-Holds hooks key price now q g r e enough in
    let found =
      Holds-get_key key now r (after_charge price now r) g.store g1.store h e same.0 same.1 in
    Holds-trans key (after_charge price now r) (settled price now r) g.store g1.store
      (check_auto_topup key now g1).1.store h
      (subst
        (λ t.
          Holds key (after_topup now (after_charge price now r) t) g1.store
            (check_auto_topup key now g1).1.store)
        same.2 (check_auto_topup-Holds key now g1 (after_charge price now r) found))

-- The record after the quota check.
abbrev pub fresh : ℕ → ApiKeyRecord → ApiKeyRecord
fresh now r = (Quota.reset_if_needed now r).1

pub settled-fresh :
    (price now : ℕ) (r : ApiKeyRecord) → settled price now (fresh now r) ≡ settled price now r
unfolding Quota.record_call Quota.reset_if_needed Quota.reset_day Quota.reset_month
settled-fresh price now r = ground arith
