-- ===== src/Keys.antt =====
-- src/store.ts: the key store. A method that mutates a record writes it back under its key; a call of
-- `save` is left out, since it writes files. New key strings are random in the source and arguments
-- here. Times are milliseconds, and a method reads the clock once.
pub mod Credits
pub mod Lifecycle
pub mod Aliases
pub mod Admin
use paygate_mcp.Base.{
  ℕ, zero, suc, ◌+◌, ◌-◌, String, Bool, true, false, not, ◌&&◌, Option, none, some, List, [], ◌∷◌,
  ltb, leb, length, is_nonempty, if◌then◌else◌,
}
use paygate_mcp.Base.Dict
use paygate_mcp.Base.Dict.{Dict}
use paygate_mcp.Ip
use paygate_mcp.Types.{QuotaConfig, ApiKeyRecord}

pub record KeyStore : Type 0 where
  pub keys : Dict ApiKeyRecord
  pub aliases : Dict String

abbrev pub put : String → ApiKeyRecord → KeyStore → KeyStore
put key r s = record s { keys = Dict.set key r s.keys }

-- `expiresAt` is a time, and it has come.
abbrev pub has_expired : ℕ → ApiKeyRecord → Bool
has_expired now r = elim r.expires_at [ none ↦ false | some t ↦ leb t now ]

abbrev pub is_usable : ℕ → ApiKeyRecord → Bool
is_usable now r = r.active && not (has_expired now r)

unfoldable pub get_key_raw : String → KeyStore → Option ApiKeyRecord
get_key_raw key s = Dict.get key s.keys

abbrev usable_only : ℕ → Option ApiKeyRecord → Option ApiKeyRecord
usable_only now none = none
usable_only now (some r) = if is_usable now r then some r else none

unfoldable pub get_key : String → ℕ → KeyStore → Option ApiKeyRecord
get_key key now s = usable_only now (Dict.get key s.keys)

unfoldable pub is_expired : String → ℕ → KeyStore → Bool
is_expired key now s = elim (Dict.get key s.keys) [ none ↦ false | some r ↦ has_expired now r ]

unfoldable pub has_credits : String → ℕ → ℕ → KeyStore → Bool
has_credits key amount now s = elim (get_key key now s) [
  | none ↦ false
  | some r ↦ leb amount r.credits
]

-- A method that fails without a usable key, and else writes its record.
abbrev on_usable : String → ℕ → KeyStore → (ApiKeyRecord → Bool × KeyStore) → Bool × KeyStore
on_usable key now s f = elim (get_key key now s) [ none ↦ (false, s) | some r ↦ f r ]

abbrev pub deducted : ℕ → ℕ → ApiKeyRecord → ApiKeyRecord
deducted amount now r = record r {
  credits = r.credits - amount;
  total_spent = r.total_spent + amount;
  total_calls = r.total_calls + 1;
  last_used_at = some now;
}

unfoldable pub deduct_credits : String → ℕ → ℕ → KeyStore → Bool × KeyStore
deduct_credits key amount now s =
    on_usable key now s
      λ r. if ltb r.credits amount then (false, s) else (true, put key (deducted amount now r) s)

-- `sanitizeCredits` does nothing to a natural number.
unfoldable pub add_credits : String → ℕ → ℕ → KeyStore → Bool × KeyStore
add_credits key amount now s = on_usable key now s λ r.
    if leb amount 0
    then (false, s)
    else (true, put key (record r { credits = r.credits + amount }) s)

unfoldable pub set_quota : String → Option QuotaConfig → ℕ → KeyStore → Bool × KeyStore
set_quota key quota now s = on_usable key now s λ r. (true, put key (record r { quota = quota }) s)

unfoldable pub set_expiry : String → Option ℕ → KeyStore → Bool × KeyStore
set_expiry key expires_at s = elim (get_key_raw key s) [
  | none ↦ (false, s)
  | some r ↦ (true, put key (record r { expires_at = expires_at }) s)
]

unfoldable pub revoke_key : String → KeyStore → Bool × KeyStore
revoke_key key s = elim (Dict.get key s.keys) [
  | none ↦ (false, s)
  | some r ↦ (true, put key (record r { active = false }) s)
]

unfoldable pub suspend_key : String → KeyStore → Bool × KeyStore
suspend_key key s = elim (Dict.get key s.keys) [
  | none ↦ (false, s)
  | some r ↦ if not r.active then (false, s) else (true, put key (record r { suspended = true }) s)
]

unfoldable pub resume_key : String → KeyStore → Bool × KeyStore
resume_key key s = elim (Dict.get key s.keys) [
  | none ↦ (false, s)
  | some r ↦
      if not r.active
      then (false, s)
      else if not r.suspended
      then (false, s)
      else (true, put key (record r { suspended = false }) s)
]

-- The new record under `new_key`, and the old one left behind inactive.
unfoldable pub rotate_key : String → String → KeyStore → Option ApiKeyRecord × KeyStore
rotate_key old_key new_key s = elim (Dict.get old_key s.keys) [
  | none ↦ (none, s)
  | some r ↦ if not r.active then (none, s) else (
    some (record r { key = new_key }),
    put new_key (record r { key = new_key }) (put old_key (record r { active = false }) s),
  )
]

-- `direct`, or the alias's key
abbrev resolved :
    Option ApiKeyRecord → Option String → (String → Option ApiKeyRecord) → Option ApiKeyRecord
resolved (some r) target f = some r
resolved none none f = none
resolved none (some key) f = f key

unfoldable pub resolve_key : String → ℕ → KeyStore → Option ApiKeyRecord
resolve_key name now s =
    resolved (get_key name now s) (Dict.get name s.aliases) (λ key. get_key key now s)

unfoldable pub resolve_key_raw : String → KeyStore → Option ApiKeyRecord
resolve_key_raw name s =
    resolved (get_key_raw name s) (Dict.get name s.aliases) (λ key. get_key_raw key s)

abbrev pub index_alias : String → Option String → Dict String → Dict String
index_alias key none m = m
index_alias key (some alias) m = Dict.set alias key m

unfoldable pub index_aliases : Dict ApiKeyRecord → Dict String → Dict String
index_aliases [] m = m
index_aliases ((key, r) ∷ rs) m = index_aliases rs (index_alias key r.alias m)

unfoldable pub rebuild_alias_index : KeyStore → KeyStore
unfolding index_aliases
rebuild_alias_index s = record s { aliases = index_aliases s.keys [] }

unfoldable pub check_ip : String → String → ℕ → KeyStore → Bool
check_ip key ip now s = elim (get_key key now s) [
  | none ↦ false
  | some r ↦ if is_nonempty r.ip_allowlist then Ip.check_ip_in_list ip r.ip_allowlist else true
]

unfoldable pub get_key_count : KeyStore → ℕ
get_key_count s = length s.keys

unfoldable pub count_active : Dict ApiKeyRecord → ℕ
count_active [] = 0
count_active ((key, r) ∷ m) = if r.active then suc (count_active m) else count_active m

unfoldable pub active_key_count : KeyStore → ℕ
unfolding count_active
active_key_count s = count_active s.keys
