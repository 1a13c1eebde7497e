-- ===== src/Keys/Credits.antt =====
-- What the credit operations of src/store.ts do to balances.
use paygate_mcp.Base.{
  ℕ, ◌+◌, ◌-◌, ◌≤◌, String, ◌≡◌, Bool, true, false, inl, inr, Option, some, List, [], ◌∷◌, arith,
  ◌⊎◌, leb, Bool-cases, if◌then◌else◌, Option-cases,
}
use paygate_mcp.Base.Dict.{get, get-set, sum_by, sum_by-set, get-set_self}
use paygate_mcp.Base.Text.{str_eq}
use paygate_mcp.Types.{ApiKeyRecord, QuotaConfig}
use paygate_mcp.Keys.{
  KeyStore, put, get_key, get_key_raw, has_credits, deducted, deduct_credits, add_credits,
  is_usable, set_quota, set_expiry, suspend_key, resume_key, revoke_key,
}

-- All credits ever put into the store: what is left and what was spent, over all keys.
abbrev pub funds : ApiKeyRecord → ℕ
funds r = r.credits + r.total_spent

abbrev pub total_funds : KeyStore → ℕ
total_funds s = sum_by funds s.keys

pub deduct-has_credits :
    (key : String) (amount now : ℕ) (s : KeyStore)
    → (deduct_credits key amount now s).0 ≡ has_credits key amount now s
unfolding deduct_credits has_credits
deduct-has_credits key amount now s = ground arith

deduct-total_funds :
    (key : String) (amount now : ℕ) (s : KeyStore)
    → total_funds (deduct_credits key amount now s).1 ≡ total_funds s
unfolding deduct_credits get_key
deduct-total_funds key amount now s = elim (Option-cases (get key s.keys)) [
  | inl e ↦ ground arith
  | inr (r, e) ↦ ground (arith, sum_by-set funds key (deducted amount now r) r s.keys e)
]

-- A deduction is made exactly when the key is usable (known, not revoked, not expired) and holds the
-- amount. Then the amount moves from the key's credits to its total spent, the call is counted, and
-- every other key's record is as before; a refused deduction changes nothing.
pub deduct_credits_exact :
    (key : String) (amount now : ℕ) (s : KeyStore)
    → let (done, s') = deduct_credits key amount now s in
      (done ≡ has_credits key amount now s)
      × (done ≡ false → s' ≡ s)
      × ((r : ApiKeyRecord)
          → get_key key now s ≡ some r
          → amount ≤ r.credits
          → (get_key_raw key s' ≡ some (deducted amount now r))
            × (r.credits ≡ r.credits - amount + amount))
      × ((other : String) → str_eq key other ≡ false → get_key_raw other s' ≡ get_key_raw other s)
unfolding deduct_credits has_credits get_key_raw
deduct_credits_exact key amount now s = (
  ground arith,
  λ e. ground arith,
  λ r e h. (ground (arith, get-set_self key (deducted amount now r) s.keys), omega arith),
  λ other ne. elim (Option-cases (get_key key now s)) [
    | inl e ↦ ground arith
    | inr (r, e) ↦ ground (arith, get-set key other (deducted amount now r) s.keys)
  ],
)

-- A top-up fails and changes nothing, or it adds the amount to a record that is there.
pub add_credits-cases :
    (key : String) (amount now : ℕ) (s : KeyStore)
    → (add_credits key amount now s ≡ (false, s))
      ⊎ ((r : ApiKeyRecord) × (get key s.keys ≡ some r)
          × (add_credits key amount now s
              ≡ (true, put key (record r { credits = r.credits + amount }) s)))
unfolding add_credits get_key
add_credits-cases key amount now s = elim (Option-cases (get key s.keys)) [
  | inl e ↦ inl (ground arith)
  | inr (r, e) ↦ elim (Bool-cases (is_usable now r)) [
    | inl usable ↦ elim (Bool-cases (leb amount 0)) [
      | inl nothing ↦ inl (ground arith)
      | inr something ↦ inr (r, e, ground arith)
    ]
    | inr unusable ↦ inl (ground arith)
  ]
]

-- The calls that change a store in which keys are neither made nor renamed.
pub data Op : Type 0 where
  deduct add : String → ℕ → Op
  suspend resume revoke : String → Op
  quota : String → Option QuotaConfig → Op
  expiry : String → Option ℕ → Op

unfoldable pub apply : ℕ → Op → KeyStore → Bool × KeyStore
apply now (deduct k a) s = deduct_credits k a now s
apply now (add k a) s = add_credits k a now s
apply now (suspend k) s = suspend_key k s
apply now (resume k) s = resume_key k s
apply now (revoke k) s = revoke_key k s
apply now (quota k q) s = set_quota k q now s
apply now (expiry k t) s = set_expiry k t s

-- What a call put in, by its answer.
abbrev pub topped_up : Op → Bool → ℕ
topped_up (add k a) done = if done then a else 0
topped_up _ done = 0

unfoldable pub run : List (ℕ × Op) → KeyStore → ℕ × KeyStore
run [] s = (0, s)
run ((now, op) ∷ ops) s =
    let (done, s') = apply now op s in
    let (added, s'') = run ops s' in (topped_up op done + added, s'')

-- A rewritten record with the same funds keeps the total.
put-total_funds :
    (key : String) (r r' : ApiKeyRecord) (s : KeyStore)
    → get key s.keys ≡ some r
    → funds r' ≡ funds r
    → total_funds (put key r' s) ≡ total_funds s
put-total_funds key r r' s e h = omega (arith, sum_by-set funds key r' r s.keys e)

apply-total_funds :
    (now : ℕ) (op : Op) (s : KeyStore)
    → total_funds (apply now op s).1 ≡ total_funds s + topped_up op (apply now op s).0
unfolding apply
apply-total_funds now (deduct k a) s = omega (arith, deduct-total_funds k a now s)
apply-total_funds now (add k a) s =
    unfold add_credits get_key in
    elim (Option-cases (get k s.keys)) [
      | inl e ↦ ground arith
      | inr (r, e) ↦
          ground (arith, sum_by-set funds k (record r { credits = r.credits + a }) r s.keys e)
    ]
apply-total_funds now (suspend k) s =
    unfold suspend_key in
    elim (Option-cases (get k s.keys)) [
      | inl e ↦ ground arith
      | inr (r, e) ↦ ground (arith, put-total_funds k r (record r { suspended = true }) s e)
    ]
apply-total_funds now (resume k) s =
    unfold resume_key in
    elim (Option-cases (get k s.keys)) [
      | inl e ↦ ground arith
      | inr (r, e) ↦ ground (arith, put-total_funds k r (record r { suspended = false }) s e)
    ]
apply-total_funds now (revoke k) s =
    unfold revoke_key in
    elim (Option-cases (get k s.keys)) [
      | inl e ↦ ground arith
      | inr (r, e) ↦ ground (arith, put-total_funds k r (record r { active = false }) s e)
    ]
apply-total_funds now (quota k q) s =
    unfold set_quota get_key in
    elim (Option-cases (get k s.keys)) [
      | inl e ↦ ground arith
      | inr (r, e) ↦ ground (arith, put-total_funds k r (record r { quota = q }) s e)
    ]
apply-total_funds now (expiry k t) s =
    unfold set_expiry get_key_raw in
    elim (Option-cases (get k s.keys)) [
      | inl e ↦ ground arith
      | inr (r, e) ↦ ground (arith, put-total_funds k r (record r { expires_at = t }) s e)
    ]

-- Credits are neither made nor lost: after any sequence of deductions, top-ups, suspensions,
-- resumptions, revocations, quota and expiry changes, successful or not and at any times, the credits
-- left plus the credits spent, over all keys, are those at the start plus what the successful top-ups
-- added.
pub run-total_funds :
    (ops : List (ℕ × Op)) (s : KeyStore)
    → let (added, s') = run ops s in total_funds s' ≡ total_funds s + added
unfolding run
run-total_funds [] s = omega arith
run-total_funds ((now, op) ∷ ops) s =
    omega (arith, apply-total_funds now op s, run-total_funds ops (apply now op s).1)
