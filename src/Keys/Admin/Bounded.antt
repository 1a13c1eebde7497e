-- ===== src/Keys/Admin/Bounded.antt =====
-- The bounds that src/store.ts keeps on the lists, tags and names of a key.
use paygate_mcp.Base.{
  ℕ, ◌≤◌, String, ◌≡◌, subst, Option, some, List, [], ◌∷◌, arith, length, or_else, Option-cases,
  Bool-cases, inl, inr,
}
use paygate_mcp.Base.Dict
use paygate_mcp.Base.Dict.{Dict, get-set}
use paygate_mcp.Base.Text.{given, str_eq, text_length}
use paygate_mcp.Types.{ApiKeyRecord}
use paygate_mcp.Keys.{KeyStore, put, get_key, get_key_raw}
use paygate_mcp.Keys.Admin.{
  sanitize_list, KeyOptions, Overrides, new_record, cloned, key_of, import_key, create_key,
  clone_key,
}
use paygate_mcp.Keys.Admin.Edits.{list_or, set_acl, merge_tags, set_tags, set_ip_allowlist}
use paygate_mcp.Keys.Admin.Lengths.{
  list_bound, list_or_bound, name_bound, tags_bound, ordinary-merge_tags, ordinary_tags,
}

-- A record within the bounds, which do not count the tags with names that every object inherits.
pub record IsBounded (r : ApiKeyRecord) : Type 0 where
  pub name : text_length r.name ≤ 200
  pub allowed : length r.allowed_tools ≤ 100
  pub denied : length r.denied_tools ≤ 100
  pub addresses : length r.ip_allowlist ≤ 100
  pub tags : length (ordinary_tags r.tags) ≤ 50

abbrev pub IsAllBounded : KeyStore → Type 0
IsAllBounded s = (k : String) (r : ApiKeyRecord) → Dict.get k s.keys ≡ some r → IsBounded r

new_record-IsBounded :
    (key name : String) (credits : ℕ) (o : KeyOptions) (now : ℕ)
    → IsBounded (new_record key name credits o now)
unfolding new_record
new_record-IsBounded key name credits o now = record {
  name = name_bound name;
  allowed = list_bound o.allowed_tools;
  denied = list_bound o.denied_tools;
  addresses = list_bound o.ip_allowlist;
  tags = tags_bound o.tags;
}

cloned-IsBounded :
    (key : String) (o : Overrides) (now : ℕ) (r : ApiKeyRecord)
    → IsBounded r
    → IsBounded (cloned key o now r)
unfolding cloned
cloned-IsBounded key o now r h = record {
  name = name_bound (or_else (given o.name) (Prim.Native.String.◌++◌ r.name "-clone"));
  allowed = h.allowed;
  denied = h.denied;
  addresses = h.addresses;
  tags = elim (Option-cases o.tags) [
    | inl e ↦ rw e h.tags
    | inr (tags, e) ↦ rw e (tags_bound tags)
  ];
}

-- The methods that write texts and lists that a caller gives.
pub data Edit : Type 0 where
  create imports : String → String → ℕ → KeyOptions → Edit
  clone : String → String → Overrides → Edit
  acl : String → Option (List String) → Option (List String) → Edit
  tags : String → List (String × Option String) → Edit
  addresses : String → List String → Edit

unfoldable pub apply : ℕ → Edit → KeyStore → KeyStore
apply now (create hex name credits o) s = (create_key hex name credits o now s).1
apply now (imports key name credits o) s = (import_key key name credits o now s).1
apply now (clone source hex o) s = (clone_key source hex o now s).1
apply now (acl key allowed denied) s = (set_acl key allowed denied now s).1
apply now (tags key entries) s = (set_tags key entries now s).1
apply now (addresses key ips) s = (set_ip_allowlist key ips now s).1

unfoldable pub run : List (ℕ × Edit) → KeyStore → KeyStore
run [] s = s
run ((now, e) ∷ es) s = run es (apply now e s)

module _ (s : KeyStore) (h : IsAllBounded s) where
  put-IsAllBounded : (key : String) (r : ApiKeyRecord) → IsBounded r → IsAllBounded (put key r s)
  put-IsAllBounded key r b k r' e = elim (Bool-cases (str_eq key k)) [
    | inl same ↦ subst IsBounded (ground (arith, get-set key k r s.keys)) b
    | inr other ↦ h k r' (ground (arith, get-set key k r s.keys))
  ]

  found-IsBounded :
      (key : String) (now : ℕ) (r : ApiKeyRecord) → get_key key now s ≡ some r → IsBounded r
  unfolding get_key
  found-IsBounded key now r e = elim (Option-cases (Dict.get key s.keys)) [
    | inl n ↦ ground arith
    | inr (r', f) ↦ subst IsBounded (ground arith) (h key r' f)
  ]

  set_acl-IsAllBounded :
      (key : String) (allowed denied : Option (List String)) (now : ℕ)
      → IsAllBounded (set_acl key allowed denied now s).1
  unfolding set_acl
  set_acl-IsAllBounded key allowed denied now = elim (Option-cases (get_key key now s)) [
    | inl n ↦ rw (set_acl, n) h
    | inr (r, e) ↦
        let b = found-IsBounded key now r e in
        rw (set_acl, e)
          (put-IsAllBounded key
            (record r {
              allowed_tools = list_or allowed r.allowed_tools;
              denied_tools = list_or denied r.denied_tools;
            })
            (record {
              name = b.name;
              allowed = list_or_bound allowed r.allowed_tools b.allowed;
              denied = list_or_bound denied r.denied_tools b.denied;
              addresses = b.addresses;
              tags = b.tags;
            }))
  ]

  set_tags-IsAllBounded :
      (key : String) (entries : List (String × Option String)) (now : ℕ)
      → IsAllBounded (set_tags key entries now s).1
  unfolding set_tags
  set_tags-IsAllBounded key entries now = elim (Option-cases (get_key key now s)) [
    | inl n ↦ rw (set_tags, n) h
    | inr (r, e) ↦
        let b = found-IsBounded key now r e in
        rw (set_tags, e)
          (put-IsAllBounded key (record r { tags = merge_tags entries r.tags })
            (record {
              name = b.name;
              allowed = b.allowed;
              denied = b.denied;
              addresses = b.addresses;
              tags = ordinary-merge_tags entries r.tags b.tags;
            }))
  ]

  set_ip_allowlist-IsAllBounded :
      (key : String) (ips : List String) (now : ℕ) → IsAllBounded (set_ip_allowlist key ips now s).1
  unfolding set_ip_allowlist
  set_ip_allowlist-IsAllBounded key ips now = elim (Option-cases (get_key key now s)) [
    | inl n ↦ rw (set_ip_allowlist, n) h
    | inr (r, e) ↦
        let b = found-IsBounded key now r e in
        rw (set_ip_allowlist, e)
          (put-IsAllBounded key (record r { ip_allowlist = sanitize_list ips })
            (record {
              name = b.name;
              allowed = b.allowed;
              denied = b.denied;
              addresses = list_bound ips;
              tags = b.tags;
            }))
  ]

  clone_key-IsAllBounded :
      (source hex : String) (o : Overrides) (now : ℕ)
      → IsAllBounded (clone_key source hex o now s).1
  unfolding clone_key get_key_raw cloned
  clone_key-IsAllBounded source hex o now = elim (Option-cases (Dict.get source s.keys)) [
    | inl n ↦ rw (clone_key, n) h
    | inr (r, e) ↦ elim (Bool-cases r.active) [
      | inl a ↦
          rw (clone_key, e, a)
            (put-IsAllBounded (key_of hex) (cloned (key_of hex) o now r)
              (cloned-IsBounded (key_of hex) o now r (h source r e)))
      | inr a ↦ rw (clone_key, e, a) h
    ]
  ]

  apply-IsAllBounded : (now : ℕ) (e : Edit) → IsAllBounded (apply now e s)
  unfolding apply import_key create_key
  apply-IsAllBounded now (create hex name credits o) =
      put-IsAllBounded (key_of hex) (new_record (key_of hex) name credits o now)
        (new_record-IsBounded (key_of hex) name credits o now)
  apply-IsAllBounded now (imports key name credits o) =
      put-IsAllBounded key (new_record key name credits o now)
        (new_record-IsBounded key name credits o now)
  apply-IsAllBounded now (clone source hex o) = clone_key-IsAllBounded source hex o now
  apply-IsAllBounded now (acl key allowed denied) = set_acl-IsAllBounded key allowed denied now
  apply-IsAllBounded now (tags key entries) = set_tags-IsAllBounded key entries now
  apply-IsAllBounded now (addresses key ips) = set_ip_allowlist-IsAllBounded key ips now

-- Creation, cloning, import of single keys and the setters of access lists, tags and IP allowlists keep
-- every key within its bounds, whatever texts and lists they are given: a name of at most 200
-- characters, at most 100 entries in each list, and at most 50 tags, not counted those with a name
-- that every object inherits, such as `toString`.
pub run-IsAllBounded :
    (es : List (ℕ × Edit)) (s : KeyStore) → IsAllBounded s → IsAllBounded (run es s)
unfolding run
run-IsAllBounded [] s h = h
run-IsAllBounded ((now, e) ∷ es) s h =
    run-IsAllBounded es (apply now e s) (apply-IsAllBounded s h now e)
