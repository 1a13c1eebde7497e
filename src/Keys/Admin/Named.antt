-- ===== src/Keys/Admin/Named.antt =====
-- `setAlias` of src/store.ts: the index of aliases against the aliases in the records.
use text.Mathlib.TextEquality.{eq_iff}
use paygate_mcp.Base.{
  String, ◌≡◌, ◌≢◌, ◌↔◌, refl, ap, subst, sym, ◌∙◌, ◌⊎◌, inl, inr, Bool, true, false, Option, none,
  some, arith, Option-cases, Bool-cases, if◌then◌else◌,
}
use paygate_mcp.Base.Dict
use paygate_mcp.Base.Dict.{get-set, get-delete}
use paygate_mcp.Base.Text.{given, take_chars, str_eq, str_eq_refl}
use paygate_mcp.Types.{ApiKeyRecord}
use paygate_mcp.Keys.{KeyStore, put, get_key_raw, resolve_key_raw}
use paygate_mcp.Keys.Admin.{trim, is_empty}
use paygate_mcp.Keys.Admin.Edits.{
  AliasResult, alias_set, set_alias, set_alias_of, name_key, drop_alias, unindex, is_alias, has_key,
  taken_by_other,
}

-- The alias in a key's record.
abbrev pub alias_at : String → KeyStore → Option String
alias_at key s = elim (Dict.get key s.keys) [ none ↦ none | some r ↦ r.alias ]

-- The index leads each alias to the key whose record has it, and no record has the empty text as alias.
pub record IsNamed (s : KeyStore) : Type 0 where
  pub agrees :
      (alias key : String) → (Dict.get alias s.aliases ≡ some key) ↔ (alias_at key s ≡ some alias)
  pub named : (key : String) → alias_at key s ≢ some String.[]

abbrev has_alias : String → Option String → Bool
has_alias alias none = false
has_alias alias (some old) = str_eq old alias

has_alias_iff : (alias : String) (o : Option String) → (has_alias alias o ≡ true) ↔ (o ≡ some alias)
has_alias_iff alias none = (λ e. ground arith, λ e. ground arith)
has_alias_iff alias (some old) =
    (λ e. ground (arith, eq_iff old alias), λ e. ground (arith, eq_iff old alias))

full_text : (alias : String) → is_empty alias ≡ false → alias ≢ String.[]
full_text String.[] h e = ground arith
full_text (String.◌∷◌ c s) h e = ground (arith, ap is_empty e)

given_full : (alias : String) → is_empty alias ≡ false → given (some alias) ≡ some alias
unfolding given
given_full String.[] h = ground arith
given_full (String.◌∷◌ c s) h = refl

given_none : (o : Option String) → o ≢ some String.[] → given o ≡ o
unfolding given
given_none none h = refl
given_none (some String.[]) h = ground (arith, h refl)
given_none (some (String.◌∷◌ c s)) h = refl

module _ (key : String) (r : ApiKeyRecord) (s : KeyStore) (h : IsNamed s)
    (found : Dict.get key s.keys ≡ some r) where
  own_alias : alias_at key s ≡ r.alias
  own_alias = ground arith

  -- The store without the alias.
  abbrev cleared : KeyStore
  cleared = put key (record r { alias = none }) (unindex r.alias s)

  abbrev renamed : String → KeyStore
  renamed alias = record s {
    keys = Dict.set key (record r { alias = some alias }) s.keys;
    aliases = Dict.set alias key (drop_alias r.alias s.aliases);
  }

  moved : (old : String) → r.alias ≡ some old → Dict.get old s.aliases ≡ some key
  moved old e = (h.agrees old key).1 (ground (arith, own_alias))

  dropped :
      (alias : String)
      → Dict.get alias (drop_alias r.alias s.aliases)
        ≡ (if has_alias alias r.alias then none else Dict.get alias s.aliases)
  dropped alias = elim (Option-cases r.alias) [
    | inl e ↦ rw e refl
    | inr (old, e) ↦ rw e (get-delete old alias s.aliases)
  ]

  cleared-IsNamed : IsNamed cleared
  cleared-IsNamed = record {
    agrees = λ alias k. (
      λ e. ground (
        arith,
        dropped alias,
        has_alias_iff alias r.alias,
        (h.agrees alias k).0,
        own_alias,
        eq_iff key k,
        get-set key k (record r { alias = none }) s.keys,
        str_eq_refl alias,
      ),
      λ e. ground (
        arith,
        dropped alias,
        has_alias_iff alias r.alias,
        (h.agrees alias k).1,
        (h.agrees alias key).1,
        own_alias,
        eq_iff key k,
        get-set key k (record r { alias = none }) s.keys,
        moved alias,
      ),
    );
    named = λ k e. ground (arith, h.named k, get-set key k (record r { alias = none }) s.keys);
  }

  renamed-IsNamed :
      (alias : String)
      → is_empty alias ≡ false
      → taken_by_other key (Dict.get alias (drop_alias r.alias s.aliases)) ≡ false
      → IsNamed (renamed alias)
  renamed-IsNamed alias full free = record {
    agrees = λ a k. (
      λ e. ground (
        arith,
        get-set alias a key (drop_alias r.alias s.aliases),
        dropped a,
        has_alias_iff a r.alias,
        eq_iff k key,
        (h.agrees a k).0,
        own_alias,
        eq_iff key k,
        eq_iff alias a,
        get-set key k (record r { alias = some alias }) s.keys,
        str_eq_refl a,
      ),
      λ e. ground (
        arith,
        get-set alias a key (drop_alias r.alias s.aliases),
        dropped a,
        has_alias_iff a r.alias,
        eq_iff k key,
        (h.agrees a k).1,
        own_alias,
        eq_iff key k,
        eq_iff alias a,
        get-set key k (record r { alias = some alias }) s.keys,
        moved a,
      ),
    );
    named = λ k e. ground (
      arith,
      h.named k,
      full_text alias full,
      get-set key k (record r { alias = some alias }) s.keys,
    );
  }

-- A name that is given: set, or refused with the old alias out of the index.
module _ (key : String) (r : ApiKeyRecord) (s : KeyStore) (h : IsNamed s)
    (found : Dict.get key s.keys ≡ some r) where
  abbrev outcome : Option String → AliasResult × KeyStore
  outcome alias = set_alias_of key alias r (unindex r.alias s)

  set_alias_lem : (alias : Option String) → set_alias key alias s ≡ outcome (given alias)
  unfolding set_alias get_key_raw
  set_alias_lem alias =
      rw (set_alias, found)
        (ap (λ o. set_alias_of key (given alias) r (unindex o s))
          (given_none r.alias (λ e. h.named key (own_alias key r s h found ∙ e))))

  name_key-cases :
      (alias : String)
      → ((name_key key alias r (unindex r.alias s) ≡ (alias_set, renamed key r s h found alias))
          × (is_empty alias ≡ false)
          × (taken_by_other key (Dict.get alias (drop_alias r.alias s.aliases)) ≡ false))
        ⊎ (((name_key key alias r (unindex r.alias s)).0 ≢ alias_set)
            × ((name_key key alias r (unindex r.alias s)).1 ≡ unindex r.alias s))
  name_key-cases alias = elim (Bool-cases (is_alias alias)) [
    | inr b ↦ inr (rw b (λ e. ground arith, refl))
    | inl b ↦
        elim (Bool-cases (taken_by_other key (Dict.get alias (drop_alias r.alias s.aliases)))) [
          | inl t ↦ inr (rw (b, t) (λ e. ground arith, refl))
          | inr t ↦ elim (Bool-cases (has_key alias s)) [
            | inl k ↦ inr (rw (b, t, k) (λ e. ground arith, refl))
            | inr k ↦ inl (rw (b, t, k) refl, ground arith, t)
          ]
        ]
  ]

  outcome-IsNamed :
      (alias : Option String) → (outcome alias).0 ≡ alias_set → IsNamed (outcome alias).1
  outcome-IsNamed none done = cleared-IsNamed key r s h found
  outcome-IsNamed (some alias) done = elim (name_key-cases (take_chars 100 (trim alias))) [
    | inl (e, full, free) ↦
        subst (λ (x : AliasResult × KeyStore). IsNamed x.1) (sym e)
          (renamed-IsNamed key r s h found (take_chars 100 (trim alias)) full free)
    | inr (fails, e) ↦ ground (arith, fails done)
  ]

  outcome_refused :
      (alias : Option String)
      → (outcome alias).0 ≢ alias_set
      → (outcome alias).1 ≡ unindex r.alias s
  outcome_refused none fails = ground (arith, fails refl)
  outcome_refused (some alias) fails = elim (name_key-cases (take_chars 100 (trim alias))) [
    | inl (e, full, free) ↦ ground (arith, fails (ap (λ (x : AliasResult × KeyStore). x.0) e))
    | inr (fails', e) ↦ e
  ]

-- Setting or clearing an alias keeps the index right whenever it succeeds: each alias leads to the one
-- key whose record has it, and to no other.
pub set_alias-IsNamed :
    (key : String) (alias : Option String) (s : KeyStore)
    → IsNamed s
    → (set_alias key alias s).0 ≡ alias_set
    → IsNamed (set_alias key alias s).1
unfolding set_alias get_key_raw
set_alias-IsNamed key alias s h done = elim (Option-cases (Dict.get key s.keys)) [
  | inl n ↦ rw (set_alias, n) h
  | inr (r, found) ↦
      let same = set_alias_lem key r s h found alias in
      subst (λ (x : AliasResult × KeyStore). IsNamed x.1) (sym same)
        (outcome-IsNamed key r s h found (given alias)
          (ap (λ (x : AliasResult × KeyStore). x.0) (sym same) ∙ done))
]

-- Setting an alias that is refused, because it has a character that it may not have, is in use or is
-- a key, takes the alias that the key had: the record still carries the old alias, but the index no
-- longer has it, so that it resolves to nothing, unless it is itself a key.
pub set_alias_loses_old :
    (key old : String) (alias : Option String) (r : ApiKeyRecord) (s : KeyStore)
    → IsNamed s
    → get_key_raw key s ≡ some r
    → r.alias ≡ some old
    → get_key_raw old s ≡ none
    → (set_alias key alias s).0 ≢ alias_set
    → let s' = (set_alias key alias s).1 in
      (get_key_raw key s' ≡ some r)
      × (resolve_key_raw old s ≡ some r)
      × (resolve_key_raw old s' ≡ none)
unfolding get_key_raw resolve_key_raw
set_alias_loses_old key old alias r s h found named free fails =
    let same = set_alias_lem key r s h found alias in
    let left : (set_alias key alias s).1 ≡ unindex r.alias s =
      ap (λ (x : AliasResult × KeyStore). x.1) same
      ∙ outcome_refused key r s h found (given alias)
          (λ e. fails (ap (λ (x : AliasResult × KeyStore). x.0) same ∙ e)) in
    rw left (
      found,
      ground (arith, moved key r s h found old),
      ground (arith, dropped key r s h found old, str_eq_refl old),
    )
