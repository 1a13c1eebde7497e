-- ===== src/Keys/Admin/Edits.antt =====
-- The setters of src/store.ts for access lists, tags and aliases, and export and import of records.
use Prim.Native.Char.{code}
use paygate_mcp.Base.{
  ℕ, String, Bool, true, false, not, ◌&&◌, ◌||◌, Option, none, some, List, [], ◌∷◌, leb, ◌==◌,
  length, or_else, if◌then◌else◌,
}
use paygate_mcp.Base.Dict
use paygate_mcp.Base.Dict.{Dict}
use paygate_mcp.Base.Text.{given, take_chars, str_eq}
use paygate_mcp.Types.{ApiKeyRecord}
use paygate_mcp.Keys.{KeyStore, put, get_key, get_key_raw, rebuild_alias_index}
use paygate_mcp.Keys.Admin.{trim, is_empty, sanitize_list, is_inherited, assign_tag}

abbrev pub list_or : Option (List String) → List String → List String
list_or none xs = xs
list_or (some ys) xs = sanitize_list ys

unfoldable pub set_acl :
    String → Option (List String) → Option (List String) → ℕ → KeyStore → Bool × KeyStore
set_acl key allowed denied now s = elim (get_key key now s) [
  | none ↦ (false, s)
  | some r ↦ (
    true,
    put key
        (record r {
          allowed_tools = list_or allowed r.allowed_tools;
          denied_tools = list_or denied r.denied_tools;
        })
        s,
  )
]

-- `key in record.tags`
abbrev pub has_tag : String → Dict String → Bool
has_tag key tags = elim (Dict.get key tags) [ none ↦ is_inherited key | some v ↦ true ]

-- A tag that is null goes; a new tag is left out where there are 50, unless its name is inherited.
abbrev pub set_tag : String → Option String → Dict String → Dict String
set_tag key none tags = Dict.delete key tags
set_tag key (some v) tags =
    if leb 50 (length tags) && not (has_tag key tags)
    then tags
    else assign_tag key (take_chars 100 (trim v)) tags

unfoldable pub merge_tags : List (String × Option String) → Dict String → Dict String
merge_tags [] tags = tags
merge_tags ((k, v) ∷ entries) tags =
    let key = take_chars 100 (trim k) in
    merge_tags entries (if is_empty key then tags else set_tag key v tags)

unfoldable pub set_tags : String → List (String × Option String) → ℕ → KeyStore → Bool × KeyStore
set_tags key entries now s = elim (get_key key now s) [
  | none ↦ (false, s)
  | some r ↦ (true, put key (record r { tags = merge_tags entries r.tags }) s)
]

unfoldable pub set_ip_allowlist : String → List String → ℕ → KeyStore → Bool × KeyStore
set_ip_allowlist key ips now s = elim (get_key key now s) [
  | none ↦ (false, s)
  | some r ↦ (true, put key (record r { ip_allowlist = sanitize_list ips }) s)
]

pub data AliasResult : Type 0 where
  alias_set key_not_found bad_alias alias_in_use alias_is_key : AliasResult

abbrev alias_char : ℕ → Bool
alias_char n =
    (leb b'a' n && leb n b'z')
    || (leb b'A' n && leb n b'Z')
    || (leb b'0' n && leb n b'9')
    || n == b'_'
    || n == b'-'

-- `/^[a-zA-Z0-9_-]*$/`
unfoldable pub alias_chars : String → Bool
alias_chars String.[] = true
alias_chars (String.◌∷◌ c s) = alias_char (code c) && alias_chars s

abbrev pub is_alias : String → Bool
is_alias s = not (is_empty s) && alias_chars s

abbrev pub taken_by_other : String → Option String → Bool
taken_by_other key none = false
taken_by_other key (some other) = not (str_eq other key)

abbrev pub has_key : String → KeyStore → Bool
has_key key s = elim (Dict.get key s.keys) [ none ↦ false | some r ↦ true ]

-- The alias that the record has leaves the index before the new one is looked at.
abbrev pub drop_alias : Option String → Dict String → Dict String
drop_alias none m = m
drop_alias (some old) m = Dict.delete old m

abbrev pub unindex : Option String → KeyStore → KeyStore
unindex old s = record s { aliases = drop_alias old s.aliases }

abbrev pub name_key : String → String → ApiKeyRecord → KeyStore → AliasResult × KeyStore
name_key key alias r s =
    if not (is_alias alias)
    then (bad_alias, s)
    else if taken_by_other key (Dict.get alias s.aliases)
    then (alias_in_use, s)
    else if has_key alias s
    then (alias_is_key, s)
    else (
      alias_set,
      record {
        keys = Dict.set key (record r { alias = some alias }) s.keys;
        aliases = Dict.set alias key s.aliases;
      },
    )

abbrev pub set_alias_of : String → Option String → ApiKeyRecord → KeyStore → AliasResult × KeyStore
set_alias_of key none r s = (alias_set, put key (record r { alias = none }) s)
set_alias_of key (some alias) r s = name_key key (take_chars 100 (trim alias)) r s

unfoldable pub set_alias : String → Option String → KeyStore → AliasResult × KeyStore
set_alias key alias s = elim (get_key_raw key s) [
  | none ↦ (key_not_found, s)
  | some r ↦ set_alias_of key (given alias) r (unindex (given r.alias) s)
]

abbrev in_namespace : Option String → ApiKeyRecord → Bool
in_namespace none r = true
in_namespace (some ns) r = str_eq r.namespace ns

unfoldable pub export_records : Option String → Bool → Dict ApiKeyRecord → List ApiKeyRecord
export_records ns active_only [] = []
export_records ns active_only ((k, r) ∷ rs) =
    let rest = export_records ns active_only rs in
    if in_namespace (given ns) r && (not active_only || r.active) then r ∷ rest else rest

unfoldable pub export_keys : Option String → Bool → KeyStore → List ApiKeyRecord
export_keys ns active_only s = export_records ns active_only s.keys

pub data ImportMode : Type 0 where
  skip overwrite fail : ImportMode

pub data ImportStatus : Type 0 where
  imported skipped overwritten bad_key already_there : ImportStatus

-- `startsWith('pg_')`
unfoldable pub is_key_format : String → Bool
is_key_format key = str_eq (take_chars 3 key) "pg_"

-- What is kept of a record that is imported.
unfoldable pub imported_record : ApiKeyRecord → ApiKeyRecord
imported_record r = record r {
  name = take_chars 200 (or_else (given (some r.name)) "imported");
  namespace = or_else (given (some r.namespace)) "default";
  allowed_countries = [];
  denied_countries = [];
  notes = [];
  webhook_url = none;
  webhook_secret = none;
}

abbrev pub import_into :
    ImportMode → ApiKeyRecord → Option ApiKeyRecord → KeyStore → ImportStatus × KeyStore
import_into mode r none s = (imported, put r.key (imported_record r) s)
import_into skip r (some old) s = (skipped, s)
import_into overwrite r (some old) s = (overwritten, put r.key (imported_record r) s)
import_into fail r (some old) s = (already_there, s)

unfoldable pub import_record : ImportMode → ApiKeyRecord → KeyStore → ImportStatus × KeyStore
import_record mode r s =
    if is_key_format r.key then import_into mode r (Dict.get r.key s.keys) s else (bad_key, s)

unfoldable pub import_records :
    ImportMode → List ApiKeyRecord → KeyStore → List ImportStatus × KeyStore
import_records mode [] s = ([], s)
import_records mode (r ∷ rs) s =
    let (status, s1) = import_record mode r s in
    let (statuses, s2) = import_records mode rs s1 in (status ∷ statuses, s2)

unfoldable pub import_keys :
    ImportMode → List ApiKeyRecord → KeyStore → List ImportStatus × KeyStore
import_keys mode records s =
    let (statuses, s') = import_records mode records s in (statuses, rebuild_alias_index s')

unfoldable pub load_entries : List (String × ApiKeyRecord) → Dict ApiKeyRecord → Dict ApiKeyRecord
load_entries [] keys = keys
load_entries ((key, r) ∷ entries) keys =
    load_entries entries (elim (given (some key)) [ none ↦ keys | some k ↦ Dict.set key r keys ])

-- `load`, of the entries in the file, which have all their fields where `save` wrote them.
unfoldable pub load : List (String × ApiKeyRecord) → KeyStore → KeyStore
load entries s = rebuild_alias_index (record s { keys = load_entries entries s.keys })
