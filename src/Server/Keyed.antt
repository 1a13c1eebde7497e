-- ===== src/Server/Keyed.antt =====
-- The key store as the handlers of src/server.ts find it: a record stands under its own key.
use paygate_mcp.Base.{ℕ, String, ◌≡◌, inl, inr, some, arith, Option-cases}
use paygate_mcp.Base.Dict.{get, sum_by}
use paygate_mcp.Types.{ApiKeyRecord}
use paygate_mcp.Keys.{KeyStore, get_key, get_key_raw, resolve_key, resolve_key_raw}

-- The credits of all keys.
abbrev pub all_credits : KeyStore → ℕ
all_credits s = sum_by (λ (r : ApiKeyRecord). r.credits) s.keys

-- A record stands under its own key.
abbrev pub IsKeyed : KeyStore → Type 0
IsKeyed s = (k : String) (r : ApiKeyRecord) → get k s.keys ≡ some r → r.key ≡ k

pub resolve_key_raw-found :
    (name : String) (r : ApiKeyRecord) (s : KeyStore)
    → IsKeyed s
    → resolve_key_raw name s ≡ some r
    → get r.key s.keys ≡ some r
unfolding resolve_key_raw get_key_raw
resolve_key_raw-found name r s keyed e = elim (Option-cases (get name s.keys)) [
  | inl missing ↦ elim (Option-cases (get name s.aliases)) [
    | inl unnamed ↦ ground arith
    | inr (key, named) ↦ ground (arith, keyed key r)
  ]
  | inr (r', found) ↦ ground (arith, keyed name r)
]

pub resolve_key_raw_direct :
    (key : String) (r : ApiKeyRecord) (s : KeyStore)
    → get key s.keys ≡ some r
    → resolve_key_raw key s ≡ some r
unfolding resolve_key_raw get_key_raw
resolve_key_raw_direct key r s found = ground arith

pub get_key-get :
    (key : String) (r : ApiKeyRecord) (now : ℕ) (s : KeyStore)
    → get_key key now s ≡ some r
    → get key s.keys ≡ some r
unfolding get_key
get_key-get key r now s found = ground arith

pub resolve_key-found :
    (name : String) (r : ApiKeyRecord) (now : ℕ) (s : KeyStore)
    → IsKeyed s
    → resolve_key name now s ≡ some r
    → get r.key s.keys ≡ some r
unfolding resolve_key
resolve_key-found name r now s keyed e = elim (Option-cases (get_key name now s)) [
  | inl missing ↦ elim (Option-cases (get name s.aliases)) [
    | inl unnamed ↦ ground arith
    | inr (key, named) ↦ ground (arith, keyed key r, get_key-get key r now s)
  ]
  | inr (r', found) ↦ ground (arith, keyed name r, get_key-get name r now s)
]
