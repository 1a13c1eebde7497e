-- ===== src/Keys/Lifecycle.antt =====
-- Revocation, suspension and rotation of keys in src/store.ts.
use text.Mathlib.TextEquality.{eq_iff}
use paygate_mcp.Base.{
  ℕ, ◌+◌, ◌≡◌, String, true, false, inl, inr, none, some, List, [], ◌∷◌, arith, Option-cases,
}
use paygate_mcp.Base.Dict.{get, set, get-set, get-set_self}
use paygate_mcp.Base.Text.{str_eq}
use paygate_mcp.Types.{ApiKeyRecord}
use paygate_mcp.Keys.{
  KeyStore, put, get_key, get_key_raw, deducted, deduct_credits, add_credits, set_quota, set_expiry,
  suspend_key, resume_key, revoke_key, rotate_key,
}
use paygate_mcp.Keys.Credits.{Op, deduct, add, suspend, resume, revoke, quota, expiry, apply}

-- The key is not there, or is revoked.
abbrev pub IsRevoked : String → KeyStore → Type 0
IsRevoked k s = (r : ApiKeyRecord) → get k s.keys ≡ some r → r.active ≡ false

-- A record that is written back keeps the key revoked, if it is not made active.
edit-IsRevoked :
    (k j : String) (q q' : ApiKeyRecord) (s : KeyStore)
    → get j s.keys ≡ some q
    → (q.active ≡ false → q'.active ≡ false)
    → IsRevoked k s
    → IsRevoked k (put j q' s)
edit-IsRevoked k j q q' s e keep h r f =
    ground (arith, eq_iff j k, get-set j k q' s.keys, h r, h q, keep)

module _ (k : String) (now : ℕ) (s : KeyStore) (h : IsRevoked k s) where
  apply-IsRevoked : (op : Op) → IsRevoked k (apply now op s).1
  unfolding apply
  apply-IsRevoked (deduct j a) r e =
      unfold deduct_credits get_key in
      elim (Option-cases (get j s.keys)) [
        | inl missing ↦ ground (arith, h r)
        | inr (q, found) ↦
            ground
              (arith, h r, edit-IsRevoked k j q (deducted a now q) s found (λ g. ground arith) h r)
      ]
  apply-IsRevoked (add j a) r e =
      unfold add_credits get_key in
      elim (Option-cases (get j s.keys)) [
        | inl missing ↦ ground (arith, h r)
        | inr (q, found) ↦ ground (
          arith,
          h r,
          edit-IsRevoked k j q (record q { credits = q.credits + a }) s found (λ g. ground arith) h
              r,
        )
      ]
  apply-IsRevoked (suspend j) r e =
      unfold suspend_key in
      elim (Option-cases (get j s.keys)) [
        | inl missing ↦ ground (arith, h r)
        | inr (q, found) ↦ ground (
          arith,
          h r,
          edit-IsRevoked k j q (record q { suspended = true }) s found (λ g. ground arith) h r,
        )
      ]
  apply-IsRevoked (resume j) r e =
      unfold resume_key in
      elim (Option-cases (get j s.keys)) [
        | inl missing ↦ ground (arith, h r)
        | inr (q, found) ↦ ground (
          arith,
          h r,
          edit-IsRevoked k j q (record q { suspended = false }) s found (λ g. ground arith) h r,
        )
      ]
  apply-IsRevoked (revoke j) r e =
      unfold revoke_key in
      elim (Option-cases (get j s.keys)) [
        | inl missing ↦ ground (arith, h r)
        | inr (q, found) ↦ ground (
          arith,
          h r,
          edit-IsRevoked k j q (record q { active = false }) s found (λ g. ground arith) h r,
        )
      ]
  apply-IsRevoked (quota j x) r e =
      unfold set_quota get_key in
      elim (Option-cases (get j s.keys)) [
        | inl missing ↦ ground (arith, h r)
        | inr (q, found) ↦ ground (
          arith,
          h r,
          edit-IsRevoked k j q (record q { quota = x }) s found (λ g. ground arith) h r,
        )
      ]
  apply-IsRevoked (expiry j t) r e =
      unfold set_expiry get_key_raw in
      elim (Option-cases (get j s.keys)) [
        | inl missing ↦ ground (arith, h r)
        | inr (q, found) ↦ ground (
          arith,
          h r,
          edit-IsRevoked k j q (record q { expires_at = t }) s found (λ g. ground arith) h r,
        )
      ]

  rotate-IsRevoked :
      (old fresh : String) → str_eq fresh k ≡ false → IsRevoked k (rotate_key old fresh s).1
  unfolding rotate_key
  rotate-IsRevoked old fresh other r e = elim (Option-cases (get old s.keys)) [
    | inl missing ↦ ground (arith, h r)
    | inr (q, found) ↦ ground (
      arith,
      h r,
      get-set fresh k (record q { key = fresh }) (set old (record q { active = false }) s.keys),
      edit-IsRevoked k old q (record q { active = false }) s found (λ g. ground arith) h r,
    )
  ]

-- The changes of a store after its keys are made.
pub data Change : Type 0 where
  edit : ℕ → Op → Change
  rotate : String → String → Change

unfoldable pub change : Change → KeyStore → KeyStore
change (edit now op) s = (apply now op s).1
change (rotate old fresh) s = (rotate_key old fresh s).1

unfoldable pub run_changes : List Change → KeyStore → KeyStore
run_changes [] s = s
run_changes (c ∷ cs) s = run_changes cs (change c s)

-- No rotation draws this key as its new one.
abbrev pub Avoids : String → List Change → Type 0
Avoids k [] = Unit {0}
Avoids k (edit now op ∷ cs) = Avoids k cs
Avoids k (rotate old fresh ∷ cs) = (str_eq fresh k ≡ false) × Avoids k cs

run_changes-IsRevoked :
    (k : String) (cs : List Change) (s : KeyStore)
    → Avoids k cs
    → IsRevoked k s
    → IsRevoked k (run_changes cs s)
unfolding run_changes change
run_changes-IsRevoked k [] s a h = h
run_changes-IsRevoked k (edit now op ∷ cs) s a h =
    run_changes-IsRevoked k cs (apply now op s).1 a (apply-IsRevoked k now s h op)
run_changes-IsRevoked k (rotate old fresh ∷ cs) s a h =
    run_changes-IsRevoked k cs (rotate_key old fresh s).1 a.1
      (rotate-IsRevoked k 0 s h old fresh a.0)

IsRevoked-unusable :
    (k : String) (s : KeyStore) → IsRevoked k s → (now : ℕ) → get_key k now s ≡ none
unfolding get_key
IsRevoked-unusable k s h now = elim (Option-cases (get k s.keys)) [
  | inl missing ↦ ground arith
  | inr (r, found) ↦ ground (arith, h r found)
]

revoke-IsRevoked : (k : String) (s : KeyStore) → IsRevoked k (revoke_key k s).1
unfolding revoke_key
revoke-IsRevoked k s r e = elim (Option-cases (get k s.keys)) [
  | inl missing ↦ ground arith
  | inr (q, found) ↦ ground (arith, get-set_self k (record q { active = false }) s.keys)
]

-- Revocation is permanent: whatever sequence of deductions, top-ups, suspensions, resumptions,
-- revocations, quota and expiry changes and rotations follows, the revoked key is at no time usable
-- again, provided that no rotation draws the same string for its new key.
pub revoke_permanent :
    (k : String) (s : KeyStore) (cs : List Change)
    → Avoids k cs
    → (now : ℕ) → get_key k now (run_changes cs (revoke_key k s).1) ≡ none
revoke_permanent k s cs a =
    IsRevoked-unusable k (run_changes cs (revoke_key k s).1)
      (run_changes-IsRevoked k cs (revoke_key k s).1 a (revoke-IsRevoked k s))
