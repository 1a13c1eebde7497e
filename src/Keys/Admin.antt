-- ===== src/Keys/Admin.antt =====
-- The administration of keys in src/store.ts: creation, cloning, import and export, and the setters of
-- aliases, tags and lists, with what they do to the texts that they are given. A tags object is a
-- dictionary in the order of insertion; lengths of texts are in characters.
pub mod Edits
pub mod Named
pub mod Copied
pub mod Bounded
pub mod Lengths
use Prim.Native.Char.{code}
use paygate_mcp.Base.{
  ℕ, zero, suc, ◌-◌, String, Bool, true, false, not, ◌&&◌, ◌||◌, Option, none, some, List, [], ◌∷◌,
  ◌++◌, ltb, leb, ◌==◌, length, filter, map, or_else, if◌then◌else◌,
}
use paygate_mcp.Base.Dict
use paygate_mcp.Base.Dict.{Dict}
use paygate_mcp.Base.Text.{given, take_chars, str_eq, includes}
use paygate_mcp.Calendar.{day_of, month_of}
use paygate_mcp.Ip.{is_space}
use paygate_mcp.Types.{QuotaConfig, ApiKeyRecord}
use paygate_mcp.Keys.{KeyStore, put, get_key, get_key_raw, rebuild_alias_index}

unfoldable pub trim_left : String → String
trim_left String.[] = String.[]
trim_left (String.◌∷◌ c s) = if is_space (code c) then trim_left s else String.◌∷◌ c s

abbrev cons_trimmed : Bool → String → String → String
cons_trimmed space c String.[] = if space then String.[] else c
cons_trimmed space c (String.◌∷◌ d s) = Prim.Native.String.◌++◌ c (String.◌∷◌ d s)

unfoldable pub trim_right : String → String
trim_right String.[] = String.[]
trim_right (String.◌∷◌ c s) =
    cons_trimmed (is_space (code c)) (String.◌∷◌ c String.[]) (trim_right s)

abbrev pub trim : String → String
trim s = trim_right (trim_left s)

abbrev pub is_empty : String → Bool
is_empty String.[] = true
is_empty (String.◌∷◌ c s) = false

unfoldable pub take_first {ℓ} : {A : Type ℓ} → ℕ → List A → List A
take_first zero xs = []
take_first (suc n) [] = []
take_first (suc n) (x ∷ xs) = x ∷ take_first n xs

unfoldable pub sanitize_name : String → String
sanitize_name name = take_chars 200 (trim name)

-- `sanitizeToolList` and `sanitizeIpList`, which are alike.
unfoldable pub sanitize_list : List String → List String
sanitize_list xs = take_first 100 (map trim (filter (λ x. not (is_empty (trim x))) xs))

-- The names that every object inherits from `Object.prototype`, but `__proto__`.
abbrev object_names : List String
object_names =
    "constructor" ∷ "toString" ∷ "toLocaleString" ∷ "valueOf" ∷ "hasOwnProperty" ∷ "isPrototypeOf"
    ∷ "propertyIsEnumerable" ∷ "__defineGetter__" ∷ "__defineSetter__" ∷ "__lookupGetter__"
    ∷ "__lookupSetter__" ∷ []

-- A name that `in` finds on an object without such an entry.
unfoldable pub is_inherited : String → Bool
is_inherited key = str_eq key "__proto__" || includes key object_names

-- `tags[key] = value`, which does nothing to an inherited `__proto__`, as the value is no object.
unfoldable pub assign_tag : String → String → Dict String → Dict String
assign_tag key v tags = elim (Dict.get key tags) [
  | none ↦ if str_eq key "__proto__" then tags else Dict.set key v tags
  | some old ↦ Dict.set key v tags
]

unfoldable pub add_tags : List (String × String) → Dict String → Dict String
add_tags [] tags = tags
add_tags ((k, v) ∷ entries) tags =
    let key = take_chars 100 (trim k) in
    add_tags entries (if is_empty key then tags else assign_tag key (take_chars 100 (trim v)) tags)

unfoldable pub sanitize_tags : Dict String → Dict String
sanitize_tags tags = add_tags (take_first 50 tags) []

unfoldable pub char_at : ℕ → String → String
char_at n String.[] = String.[]
char_at zero (String.◌∷◌ c s) = String.◌∷◌ c String.[]
char_at (suc n) (String.◌∷◌ c s) = char_at n s

-- A character in lower case, if it is then a letter of a to z, a digit or a hyphen.
abbrev namespace_char : ℕ → String → String
namespace_char n c =
    if leb b'A' n && leb n b'Z'
    then char_at (n - b'A') "abcdefghijklmnopqrstuvwxyz"
    else if n == 0x212a
    then "k"
    else if n == 0x130
    then "i"
    else if (leb b'a' n && leb n b'z') || (leb b'0' n && leb n b'9') || n == b'-'
    then c
    else String.[]

unfoldable pub namespace_chars : String → String
namespace_chars String.[] = String.[]
namespace_chars (String.◌∷◌ c s) =
    Prim.Native.String.◌++◌ (namespace_char (code c) (String.◌∷◌ c String.[])) (namespace_chars s)

unfoldable pub sanitize_namespace : Option String → String
sanitize_namespace ns = elim (given ns) [
  | none ↦ "default"
  | some s ↦ or_else (given (some (take_chars 50 (namespace_chars (trim s))))) "default"
]

-- The options of `createKey` and `importKey`; an absent list is empty.
pub record KeyOptions : Type 0 where
  pub allowed_tools : List String
  pub denied_tools : List String
  pub expires_at : Option ℕ
  pub quota : Option QuotaConfig
  pub tags : Dict String
  pub ip_allowlist : List String
  pub namespace : Option String

unfoldable pub new_record : String → String → ℕ → KeyOptions → ℕ → ApiKeyRecord
new_record key name credits o now = record {
  key = key;
  name = sanitize_name name;
  credits = credits;
  total_spent = 0;
  total_calls = 0;
  created_at = now;
  last_used_at = none;
  active = true;
  spending_limit = 0;
  allowed_tools = sanitize_list o.allowed_tools;
  denied_tools = sanitize_list o.denied_tools;
  expires_at = o.expires_at;
  quota = o.quota;
  tags = sanitize_tags o.tags;
  ip_allowlist = sanitize_list o.ip_allowlist;
  namespace = sanitize_namespace o.namespace;
  group = none;
  suspended = false;
  allowed_countries = [];
  denied_countries = [];
  alias = none;
  auto_topup = none;
  auto_topup_today_count = 0;
  auto_topup_last_reset_day = day_of now;
  quota_daily_calls = 0;
  quota_monthly_calls = 0;
  quota_daily_credits = 0;
  quota_monthly_credits = 0;
  quota_last_reset_day = day_of now;
  quota_last_reset_month = month_of now;
  notes = [];
  webhook_url = none;
  webhook_secret = none;
}

-- `pg_${hex}`
abbrev pub key_of : String → String
key_of hex = Prim.Native.String.◌++◌ "pg_" hex

unfoldable pub import_key :
    String → String → ℕ → KeyOptions → ℕ → KeyStore → ApiKeyRecord × KeyStore
import_key key name credits o now s = let r = new_record key name credits o now in (r, put key r s)

unfoldable pub create_key :
    String → String → ℕ → KeyOptions → ℕ → KeyStore → ApiKeyRecord × KeyStore
create_key hex name credits o now s = import_key (key_of hex) name credits o now s

pub record Overrides : Type 0 where
  pub name : Option String
  pub credits : Option ℕ
  pub tags : Option (Dict String)
  pub namespace : Option String

abbrev tags_or : Option (Dict String) → Dict String → Dict String
tags_or none tags = tags
tags_or (some given_tags) tags = sanitize_tags given_tags

unfoldable pub cloned : String → Overrides → ℕ → ApiKeyRecord → ApiKeyRecord
cloned key o now r = record {
  key = key;
  name = sanitize_name (or_else (given o.name) (Prim.Native.String.◌++◌ r.name "-clone"));
  credits = or_else o.credits r.credits;
  total_spent = 0;
  total_calls = 0;
  created_at = now;
  last_used_at = none;
  active = true;
  spending_limit = r.spending_limit;
  allowed_tools = r.allowed_tools;
  denied_tools = r.denied_tools;
  expires_at = r.expires_at;
  quota = r.quota;
  tags = tags_or o.tags r.tags;
  ip_allowlist = r.ip_allowlist;
  namespace = sanitize_namespace (some (or_else o.namespace r.namespace));
  group = r.group;
  suspended = false;
  allowed_countries = [];
  denied_countries = [];
  alias = none;
  auto_topup = r.auto_topup;
  auto_topup_today_count = 0;
  auto_topup_last_reset_day = day_of now;
  quota_daily_calls = 0;
  quota_monthly_calls = 0;
  quota_daily_credits = 0;
  quota_monthly_credits = 0;
  quota_last_reset_day = day_of now;
  quota_last_reset_month = month_of now;
  notes = [];
  webhook_url = none;
  webhook_secret = none;
}

unfoldable pub clone_key :
    String → String → Overrides → ℕ → KeyStore → Option ApiKeyRecord × KeyStore
clone_key source hex o now s = elim (get_key_raw source s) [
  | none ↦ (none, s)
  | some r ↦
      if r.active
      then (some (cloned (key_of hex) o now r), put (key_of hex) (cloned (key_of hex) o now r) s)
      else (none, s)
]
