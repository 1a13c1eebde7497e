-- ===== src/Keys/Aliases.antt =====
-- Rotation of a key in src/store.ts, and what it does to the key's alias.
use text.Mathlib.TextEquality.{eq_iff}
use paygate_mcp.Base.{ℕ, ◌≡◌, String, refl, ap, true, false, none, some, arith, if◌then◌else◌}
use paygate_mcp.Base.Dict.{get, set, get-set, get-set_self, sum_by, sum_by-set, sum_by-set_new}
use paygate_mcp.Base.Text.{str_eq}
use paygate_mcp.Types.{ApiKeyRecord}
use paygate_mcp.Keys.{KeyStore, put, get_key, get_key_raw, rotate_key, resolve_key}

abbrev gone_of : ApiKeyRecord → ApiKeyRecord
gone_of r = record r { active = false }

abbrev moved_of : String → ApiKeyRecord → ApiKeyRecord
moved_of fresh r = record r { key = fresh }

rotate_key_lem :
    (old fresh : String) (r : ApiKeyRecord) (s : KeyStore)
    → get old s.keys ≡ some r
    → r.active ≡ true
    → rotate_key old fresh s
      ≡ (some (moved_of fresh r), put fresh (moved_of fresh r) (put old (gone_of r) s))
unfolding rotate_key
rotate_key_lem old fresh r s found live = ground arith

-- The credits of the keys that are not revoked.
abbrev pub active_credits : ApiKeyRecord → ℕ
active_credits r = if r.active then r.credits else 0

-- Rotation of a key that is there and not revoked, to a string that is no key yet: the new key has
-- the old one's record in all but the key string, the old key is left revoked with its record
-- otherwise as it was, every other key keeps its record, and the credits of the keys that are not
-- revoked add up to what they did.
pub rotate_moves :
    (old fresh : String) (r : ApiKeyRecord) (s : KeyStore)
    → get_key_raw old s ≡ some r
    → r.active ≡ true
    → get_key_raw fresh s ≡ none
    → let s' = (rotate_key old fresh s).1 in
      ((rotate_key old fresh s).0 ≡ some (record r { key = fresh }))
      × (get_key_raw fresh s' ≡ some (record r { key = fresh }))
      × (get_key_raw old s' ≡ some (record r { active = false }))
      × ((other : String)
          → str_eq old other ≡ false
          → str_eq fresh other ≡ false
          → get_key_raw other s' ≡ get_key_raw other s)
      × (sum_by active_credits s'.keys ≡ sum_by active_credits s.keys)
unfolding get_key_raw
rotate_moves old fresh r s found live unused = rw (rotate_key_lem old fresh r s found live) (
  refl,
  get-set_self fresh moved (set old gone s.keys),
  ground (
    arith,
    apart,
    get-set fresh old moved (set old gone s.keys),
    get-set_self old gone s.keys,
    eq_iff fresh old,
    eq_iff old fresh,
  ),
  λ other a b.
      ground
        (arith, get-set fresh other moved (set old gone s.keys), get-set old other gone s.keys),
  omega (
    arith,
    sum_by-set active_credits old gone r s.keys found,
    sum_by-set_new active_credits fresh moved (set old gone s.keys)
        (ground (arith, apart, get-set old fresh gone s.keys)),
    ap (λ b. if b then r.credits else 0) live,
  ),
)
  where
    gone : ApiKeyRecord
    gone = record r { active = false }

    moved : ApiKeyRecord
    moved = record r { key = fresh }

    apart : str_eq old fresh ≡ false
    apart = ground (arith, eq_iff old fresh)

-- Take a key that is there and not revoked, an alias of it that is in the index and is itself no
-- key, and a new string that is neither a key nor the alias. After the rotation to the new string
-- the alias resolves to no usable key, although the new key's record carries it: the index still
-- leads to the old key, which is revoked.
pub rotate_loses_alias :
    (alias old fresh : String) (r : ApiKeyRecord) (s : KeyStore) (now : ℕ)
    → get_key_raw old s ≡ some r
    → r.active ≡ true
    → r.alias ≡ some alias
    → get alias s.aliases ≡ some old
    → get_key_raw alias s ≡ none
    → get_key_raw fresh s ≡ none
    → str_eq fresh alias ≡ false
    → let s' = (rotate_key old fresh s).1 in
      (resolve_key alias now s' ≡ none)
      × ((r' : ApiKeyRecord) → get_key_raw fresh s' ≡ some r' → r'.alias ≡ some alias)
unfolding resolve_key get_key get_key_raw
rotate_loses_alias alias old fresh r s now found live named indexed free unused differ =
    let gone : ApiKeyRecord = record r { active = false } in
    let moved : ApiKeyRecord = record r { key = fresh } in
    let at_alias : get alias (set fresh moved (set old gone s.keys)) ≡ none = ground (
      arith,
      get-set fresh alias moved (set old gone s.keys),
      get-set old alias gone s.keys,
      eq_iff old alias,
    ) in
    let at_old : get old (set fresh moved (set old gone s.keys)) ≡ some gone = ground (
      arith,
      get-set fresh old moved (set old gone s.keys),
      get-set_self old gone s.keys,
      eq_iff fresh old,
    ) in
    rw (rotate_key_lem old fresh r s found live) (
      rw (at_alias, indexed, at_old),
      λ r' e. ground (arith, get-set_self fresh moved (set old gone s.keys)),
    )
