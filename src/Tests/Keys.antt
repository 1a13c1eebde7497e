-- ===== src/Tests/Keys.antt =====
-- The results on the administration of keys, on the store with two keys.
use text.Mathlib.TextEquality.{eq_iff}
use paygate_mcp.Base.{
  ℕ, zero, suc, length, String, ◌≡◌, ◌≢◌, refl, ap, inl, inr, arith, Bool-cases, false, none, some,
  List, [], ◌∷◌, subst,
}
use paygate_mcp.Base.Decimal.{decimal}
use paygate_mcp.Base.Dict
use paygate_mcp.Base.Dict.{Dict}
use paygate_mcp.Base.Text.{given, take_chars, str_eq, text_length, includes}
use paygate_mcp.Ip.{is_space}
use paygate_mcp.Keys.{get_key_raw, resolve_key_raw}
use paygate_mcp.Keys.Admin.{trim_left, trim_right, is_empty, is_inherited, assign_tag}
use paygate_mcp.Keys.Admin.Edits.{
  set_alias, alias_set, alias_chars, import_keys, export_keys, skip, is_key_format, set_tag,
}
use paygate_mcp.Keys.Admin.Named.{IsNamed, set_alias-IsNamed, set_alias_loses_old}
use paygate_mcp.Keys.Admin.Copied.{IsExportable, import_keys-export_keys}
use paygate_mcp.Keys.Admin.Bounded.{
  Edit, clone, acl, tags, run, IsBounded, IsAllBounded, run-IsAllBounded,
}
use paygate_mcp.Tests.{noon, alice, bob, store}

main_full : let name : String = "main" in name ≢ ""
main_full e = ground (arith, ap is_empty e)

store-IsNamed : IsNamed store
unfolding Dict.get
store-IsNamed = record {
  agrees = λ a k. (
    λ e. ground (arith, eq_iff "main" a, eq_iff "pg_a" k, eq_iff "pg_b" k),
    λ e. ground (arith, eq_iff "main" a, eq_iff "pg_a" k, eq_iff "pg_b" k),
  );
  named = λ k e. ground (arith, main_full, eq_iff "pg_a" k, eq_iff "pg_b" k);
}

fine : (set_alias "pg_b" (some " ops ") store).0 ≡ alias_set
unfolding set_alias get_key_raw Dict.get given take_chars trim_left trim_right is_space alias_chars
fine = refl

wrong : (set_alias "pg_a" (some "a/b") store).0 ≢ alias_set
unfolding set_alias get_key_raw Dict.get Dict.delete given take_chars trim_left trim_right is_space
    alias_chars
wrong e = ground arith

set_alias-IsNamed_example : IsNamed (set_alias "pg_b" (some " ops ") store).1
set_alias-IsNamed_example = set_alias-IsNamed "pg_b" (some " ops ") store store-IsNamed fine

there : (get_key_raw "pg_a" store ≡ some alice) × (get_key_raw "main" store ≡ none)
unfolding get_key_raw Dict.get
there = (refl, refl)

set_alias_loses_old_example :
    let s' = (set_alias "pg_a" (some "a/b") store).1 in
    (get_key_raw "pg_a" s' ≡ some alice)
    × (resolve_key_raw "main" store ≡ some alice)
    × (resolve_key_raw "main" s' ≡ none)
set_alias_loses_old_example =
    set_alias_loses_old "pg_a" "main" (some "a/b") alice store store-IsNamed there.0 refl there.1
      wrong

store-IsExportable : IsExportable store.keys
unfolding is_key_format take_chars given Dict.get
store-IsExportable = (
  record { own_key = refl; format = refl; short_name = refl; named = refl; in_namespace = refl },
  refl,
  (
    record { own_key = refl; format = refl; short_name = refl; named = refl; in_namespace = refl },
    refl,
    tt,
  ),
)

import_keys-export_keys_example :
    let s' =
      (import_keys skip (export_keys none false store) (record { keys = []; aliases = [] })).1 in
    Dict.get "pg_a" s'.keys ≡ (elim (Dict.get "pg_a" store.keys) [
      | none ↦ none
      | some r ↦ some (record r {
        allowed_countries = [];
        denied_countries = [];
        notes = [];
        webhook_url = none;
        webhook_secret = none;
      })
    ])
import_keys-export_keys_example = import_keys-export_keys store store-IsExportable "pg_a"

alice-IsBounded : IsBounded alice
unfolding text_length
alice-IsBounded = record {
  name = omega arith;
  allowed = omega arith;
  denied = omega arith;
  addresses = omega arith;
  tags = omega arith;
}

bob-IsBounded : IsBounded bob
unfolding text_length
bob-IsBounded = record {
  name = omega arith;
  allowed = omega arith;
  denied = omega arith;
  addresses = omega arith;
  tags = omega arith;
}

store-IsAllBounded : IsAllBounded store
unfolding Dict.get
store-IsAllBounded k r e = elim (Bool-cases (str_eq "pg_a" k)) [
  | inl a ↦ subst IsBounded (ground arith) alice-IsBounded
  | inr a ↦ elim (Bool-cases (str_eq "pg_b" k)) [
    | inl b ↦ subst IsBounded (ground arith) bob-IsBounded
    | inr b ↦ ground arith
  ]
]

abbrev edits : List (ℕ × Edit)
edits =
    (
      noon,
      clone "pg_a" "1" (record { name = none; credits = some 4; tags = none; namespace = none }),
    )
    ∷ (noon, acl "pg_a" (some (" a " ∷ "" ∷ [])) none)
    ∷ (noon, tags "pg_b" (("team", some "x") ∷ ("old", none) ∷ []))
    ∷ []

run-IsAllBounded_example : IsAllBounded (run edits store)
run-IsAllBounded_example = run-IsAllBounded edits store store-IsAllBounded

abbrev many_tags : ℕ → Dict String
many_tags zero = []
many_tags (suc n) = (decimal n, "x") ∷ many_tags n

-- A full object of tags takes an inherited name, and no other; it does not keep `__proto__`.
full_tags :
    (length (set_tag "toString" (some "x") (many_tags 50)) ≡ 51)
    × (length (set_tag "other" (some "x") (many_tags 50)) ≡ 50)
    × (length (set_tag "__proto__" (some "x") (many_tags 49)) ≡ 49)
unfolding Dict.get Dict.set is_inherited includes assign_tag decimal take_chars trim_left trim_right
    is_space
full_tags = (refl, refl, refl)
