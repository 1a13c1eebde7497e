-- ===== src/Keys/Admin/Copied.antt =====
-- Keys of src/store.ts that are exported and imported into another store.
use text.Mathlib.TextEquality.{eq_iff}
use paygate_mcp.Base.{
  String, ◌≡◌, ◌≢◌, refl, ap, ◌∙◌, true, false, Option, none, some, [], ◌∷◌, arith,
}
use paygate_mcp.Base.Dict
use paygate_mcp.Base.Dict.{Dict, get-set}
use paygate_mcp.Base.Text.{given, take_chars, str_eq_refl}
use paygate_mcp.Types.{ApiKeyRecord}
use paygate_mcp.Keys.{KeyStore, put, rebuild_alias_index}
use paygate_mcp.Keys.Admin.Edits.{
  export_records, export_keys, import_record, import_records, import_keys, imported_record,
  is_key_format, skip,
}

-- A record as `createKey` makes it: under its own key string, with a name and a namespace.
pub record IsProper (key : String) (r : ApiKeyRecord) : Type 0 where
  pub own_key : r.key ≡ key
  pub format : is_key_format key ≡ true
  pub short_name : take_chars 200 r.name ≡ r.name
  pub named : given (some r.name) ≡ some r.name
  pub in_namespace : given (some r.namespace) ≡ some r.namespace

abbrev pub IsExportable : Dict ApiKeyRecord → Type 0
IsExportable [] = Unit {0}
IsExportable ((k, r) ∷ rs) = IsProper k r × (Dict.get k rs ≡ none) × IsExportable rs

-- What an import keeps.
abbrev pub kept : ApiKeyRecord → ApiKeyRecord
kept r = record r {
  allowed_countries = [];
  denied_countries = [];
  notes = [];
  webhook_url = none;
  webhook_secret = none;
}

imported_record_proper :
    (key : String) (r : ApiKeyRecord) → IsProper key r → imported_record r ≡ kept r
unfolding imported_record
imported_record_proper key r p = rw (p.named, p.in_namespace, p.short_name) refl

-- A record with a free key goes in.
import_record-free :
    (key : String) (r : ApiKeyRecord) (s : KeyStore)
    → IsProper key r
    → Dict.get key s.keys ≡ none
    → (import_record skip r s).1 ≡ put key (kept r) s
unfolding import_record
import_record-free key r s p free =
    let format : is_key_format r.key ≡ true = ap is_key_format p.own_key ∙ p.format in
    let new : Dict.get r.key s.keys ≡ none = ap (λ k. Dict.get k s.keys) p.own_key ∙ free in
    rw (import_record, format, new)
      (ap (λ k. put k (imported_record r) s) p.own_key
        ∙ ap (λ x. put key x s) (imported_record_proper key r p))

abbrev copied : Option ApiKeyRecord → Option ApiKeyRecord → Option ApiKeyRecord
copied none old = old
copied (some r) old = some (kept r)

import_next :
    (key : String) (r : ApiKeyRecord) (rs : Dict ApiKeyRecord) (s : KeyStore)
    → (import_records skip (export_records none false ((key, r) ∷ rs)) s).1
      ≡ (import_records skip (export_records none false rs) (import_record skip r s).1).1
unfolding import_records export_records given
import_next key r rs s = refl

get-import_records :
    (rs : Dict ApiKeyRecord) (s : KeyStore)
    → IsExportable rs
    → ((k : String) → Dict.get k rs ≢ none → Dict.get k s.keys ≡ none)
    → (k : String)
    → Dict.get k (import_records skip (export_records none false rs) s).1.keys
      ≡ copied (Dict.get k rs) (Dict.get k s.keys)
unfolding Dict.get
get-import_records [] s u free k = unfold import_records export_records in refl
get-import_records ((key, r) ∷ rs) s u free k =
    let first = import_record-free key r s u.0 (free key (λ e. ground (arith, str_eq_refl key))) in
    let s1 : KeyStore = put key (kept r) s in
    ap (λ (x : KeyStore). Dict.get k x.keys) (import_next key r rs s)
    ∙ ap
        (λ (x : KeyStore). Dict.get k (import_records skip (export_records none false rs) x).1.keys)
        first
    ∙ get-import_records rs s1 u.2
        (λ j there.
          ground (arith, free j (λ e. ground arith), get-set key j (kept r) s.keys, eq_iff key j))
        k
    ∙ ground (arith, get-set key k (kept r) s.keys, eq_iff key k)

copied_over_nothing :
    (o : Option ApiKeyRecord)
    → copied o none ≡ (elim o [
      | none ↦ none
      | some r ↦ some (record r {
        allowed_countries = [];
        denied_countries = [];
        notes = [];
        webhook_url = none;
        webhook_secret = none;
      })
    ])
copied_over_nothing none = refl
copied_over_nothing (some r) = refl

-- Take a store of keys as `createKey` makes them: each record under its own key string, with a name of
-- at most 200 characters and a namespace, none of them empty. Exported and imported into an empty
-- store, every key is there again with its record, credits, counters, limits and revocation included,
-- and no other key; but the lists of allowed and denied countries and the notes are empty, and the
-- webhook's address and secret are gone.
pub import_keys-export_keys :
    (s : KeyStore)
    → IsExportable s.keys
    → let s' =
        (import_keys skip (export_keys none false s) (record { keys = []; aliases = [] })).1 in
      (k : String)
      → Dict.get k s'.keys ≡ (elim (Dict.get k s.keys) [
        | none ↦ none
        | some r ↦ some (record r {
          allowed_countries = [];
          denied_countries = [];
          notes = [];
          webhook_url = none;
          webhook_secret = none;
        })
      ])
unfolding import_keys export_keys rebuild_alias_index Dict.get
import_keys-export_keys s u k =
    get-import_records s.keys (record { keys = []; aliases = [] }) u (λ j there. refl) k
    ∙ copied_over_nothing (Dict.get k s.keys)
