-- ===== src/Teams/Members/Preserved.antt =====
-- Every operation of src/teams.ts keeps the index of members right.
use text.Mathlib.TextEquality.{eq_iff}
use paygate_mcp.Base.{
  ◌≤◌, ◌≡◌, refl, sym, subst, inl, inr, ◌≢◌, String, Bool, true, false, none, some, List, [], ◌∷◌,
  ◌++◌, arith, length, if◌then◌else◌, Option-cases, length-append,
}
use paygate_mcp.Base.Dict
use paygate_mcp.Base.Dict.{Dict, get-set, get-delete}
use paygate_mcp.Base.Text.{given, includes, str_eq}
use paygate_mcp.Teams.{TeamRecord, TeamManager, put_team, remove_first, unassign, elsewhere}
use paygate_mcp.Base.Names.{IsDistinct, IsDistinct-snoc, includes-snoc}
use paygate_mcp.Teams.Members.{
  members, is_active, IsIndexed, includes-remove_first, remove_first-IsDistinct,
  length-remove_first, get-unassign,
}

module _ (t : TeamRecord) (id : String) (m : TeamManager) where
  members-put_team :
      (i : String)
      → members i (put_team t id m) ≡ (if str_eq id i then t.member_keys else members i m)
  members-put_team i = ground (arith, get-set id i t m.teams)

  is_active-put_team :
      (i : String)
      → is_active i (put_team t id m) ≡ (if str_eq id i then t.active else is_active i m)
  is_active-put_team i = ground (arith, get-set id i t m.teams)

  members-put_team_same :
      t.member_keys ≡ members id m → (i : String) → members i (put_team t id m) ≡ members i m
  members-put_team_same e i = ground (arith, members-put_team i, eq_iff id i)

  pub put_team-IsIndexed :
      t.member_keys ≡ members id m
      → (t.active ≡ false → members id m ≡ [])
      → given (some id) ≢ none
      → IsIndexed m
      → IsIndexed (put_team t id m)
  put_team-IsIndexed e c name h = record {
    indexed = λ k i g. rw (members-put_team_same e i) (h.indexed k i g);
    listed = λ k i g. h.listed k i (rw (sym (members-put_team_same e i)) g);
    named = λ i g. ground (arith, get-set id i t m.teams, eq_iff id i, h.named i g);
    closed = λ i g.
        rw (members-put_team_same e i)
          (ground (arith, is_active-put_team i, eq_iff id i, h.closed i));
    unique = Dict.set-IsMap id t m.teams h.unique;
    distinct = λ i. rw (members-put_team_same e i) (h.distinct i);
    small = λ i. rw (members-put_team_same e i) (h.small i);
  }

pub given_same : (s o : String) → given (some s) ≡ some o → o ≡ s
unfolding given
given_same String.[] o e = ground arith
given_same (String.◌∷◌ c s) o e = ground arith

includes-none : (k : String) → includes k [] ≡ false
unfolding includes
includes-none k = refl

remove_first-none : (key : String) → remove_first key [] ≡ []
unfolding remove_first
remove_first-none key = refl

IsDistinct-if :
    (b : Bool) (xs ys : List String)
    → IsDistinct xs
    → IsDistinct ys
    → IsDistinct (if b then xs else ys)
IsDistinct-if true xs ys h k = h
IsDistinct-if false xs ys h k = k

module _ (id : String) (m : TeamManager) where
  pub own : (t : TeamRecord) → Dict.get id m.teams ≡ some t → members id m ≡ t.member_keys
  own t e = ground arith

  pub own_active : (t : TeamRecord) → Dict.get id m.teams ≡ some t → is_active id m ≡ t.active
  own_active t e = ground arith

  -- A key that is in no other team by the index, and not in this one, is not indexed at all.
  not_indexed :
      (key : String)
      → IsIndexed m
      → elsewhere id (given (Dict.get key m.key_to_team)) ≡ false
      → includes key (members id m) ≡ false
      → Dict.get key m.key_to_team ≡ none
  unfolding given includes
  not_indexed key h apart new = elim (Option-cases (Dict.get key m.key_to_team)) [
    | inl none_there ↦ none_there
    | inr (other, e) ↦ elim (Option-cases (given (some other))) [
      | inl unnamed ↦ ground (arith, h.indexed key other e, h.named other unnamed)
      | inr (o, n) ↦ ground (arith, h.indexed key other e, given_same other o n, eq_iff other id)
    ]
  ]

-- The member list of one team and the index change together.
module _ (t : TeamRecord) (id key : String) (m : TeamManager) (h : IsIndexed m)
    (found : Dict.get id m.teams ≡ some t) where
  abbrev added : TeamManager
  added = record {
    teams = Dict.set id (record t { member_keys = t.member_keys ++ key ∷ [] }) m.teams;
    key_to_team = Dict.set key id m.key_to_team;
  }

  abbrev removed : TeamManager
  removed = record {
    teams = Dict.set id (record t { member_keys = remove_first key t.member_keys }) m.teams;
    key_to_team = Dict.delete key m.key_to_team;
  }

  abbrev deleted : TeamManager
  deleted = record {
    teams = Dict.set id (record t { member_keys = []; active = false }) m.teams;
    key_to_team = unassign t.member_keys m.key_to_team;
  }

  own-IsDistinct : IsDistinct t.member_keys
  own-IsDistinct = subst IsDistinct (own id m t found) (h.distinct id)

  members-added :
      (i : String)
      → members i added ≡ (if str_eq id i then t.member_keys ++ key ∷ [] else members i m)
  members-added = members-put_team (record t { member_keys = t.member_keys ++ key ∷ [] }) id m

  members-removed :
      (i : String)
      → members i removed ≡ (if str_eq id i then remove_first key t.member_keys else members i m)
  members-removed =
      members-put_team (record t { member_keys = remove_first key t.member_keys }) id m

  members-deleted : (i : String) → members i deleted ≡ (if str_eq id i then [] else members i m)
  members-deleted = members-put_team (record t { member_keys = []; active = false }) id m

  pub added-IsIndexed :
      t.active ≡ true
      → elsewhere id (given (Dict.get key m.key_to_team)) ≡ false
      → includes key t.member_keys ≡ false
      → length t.member_keys ≤ 99
      → IsIndexed added
  added-IsIndexed live apart new room = record {
    indexed = λ k i g. ground (
      arith,
      eq_iff id i,
      eq_iff key k,
      get-set key k id m.key_to_team,
      members-added i,
      includes-snoc k key t.member_keys,
      h.indexed k i,
      own id m t found,
    );
    listed = λ k i g. ground (
      arith,
      eq_iff id i,
      eq_iff key k,
      get-set key k id m.key_to_team,
      members-added i,
      includes-snoc k key t.member_keys,
      h.listed k i,
      own id m t found,
      not_indexed id m key h apart,
    );
    named = λ i g. ground (
      arith,
      eq_iff id i,
      get-set id i (record t { member_keys = t.member_keys ++ key ∷ [] }) m.teams,
      h.named i g,
    );
    closed = λ i g. ground (
      arith,
      eq_iff id i,
      members-added i,
      h.closed i,
      is_active-put_team (record t { member_keys = t.member_keys ++ key ∷ [] }) id m i,
      own_active id m t found,
    );
    unique =
        Dict.set-IsMap id (record t { member_keys = t.member_keys ++ key ∷ [] }) m.teams h.unique;
    distinct = λ i. rw (members-added i) (
        IsDistinct-if (str_eq id i) (t.member_keys ++ key ∷ []) (members i m)
          (IsDistinct-snoc key t.member_keys own-IsDistinct new) (h.distinct i));
    small = λ i. ground (arith, members-added i, h.small i, length-append t.member_keys (key ∷ []));
  }

  pub removed-IsIndexed : includes key t.member_keys ≡ true → IsIndexed removed
  removed-IsIndexed old = record {
    indexed = λ k i g. ground (
      arith,
      eq_iff id i,
      eq_iff key k,
      get-delete key k m.key_to_team,
      members-removed i,
      includes-remove_first k key t.member_keys own-IsDistinct,
      h.indexed k i,
      own id m t found,
    );
    listed = λ k i g. ground (
      arith,
      eq_iff id i,
      eq_iff key k,
      get-delete key k m.key_to_team,
      members-removed i,
      includes-remove_first k key t.member_keys own-IsDistinct,
      h.listed k i,
      h.listed key id,
      own id m t found,
    );
    named = λ i g. ground (
      arith,
      eq_iff id i,
      get-set id i (record t { member_keys = remove_first key t.member_keys }) m.teams,
      h.named i g,
    );
    closed = λ i g. ground (
      arith,
      eq_iff id i,
      members-removed i,
      h.closed i,
      own id m t found,
      is_active-put_team (record t { member_keys = remove_first key t.member_keys }) id m i,
      own_active id m t found,
      remove_first-none key,
    );
    unique =
        Dict.set-IsMap id (record t { member_keys = remove_first key t.member_keys }) m.teams
          h.unique;
    distinct = λ i. rw (members-removed i) (
        IsDistinct-if (str_eq id i) (remove_first key t.member_keys) (members i m)
          (remove_first-IsDistinct key t.member_keys own-IsDistinct) (h.distinct i));
    small = λ i. ground (
      arith,
      members-removed i,
      h.small i,
      h.small id,
      own id m t found,
      length-remove_first key t.member_keys,
    );
  }

  pub deleted-IsIndexed : IsIndexed deleted
  deleted-IsIndexed = record {
    indexed = λ k i g. ground (
      arith,
      eq_iff id i,
      members-deleted i,
      get-unassign k t.member_keys m.key_to_team,
      h.indexed k i,
      own id m t found,
    );
    listed = λ k i g. ground (
      arith,
      eq_iff id i,
      members-deleted i,
      get-unassign k t.member_keys m.key_to_team,
      h.listed k i,
      h.listed k id,
      own id m t found,
      includes-none k,
    );
    named = λ i g. ground (
      arith,
      eq_iff id i,
      get-set id i (record t { member_keys = []; active = false }) m.teams,
      h.named i g,
    );
    closed = λ i g. ground (
      arith,
      eq_iff id i,
      members-deleted i,
      h.closed i,
      is_active-put_team (record t { member_keys = []; active = false }) id m i,
    );
    unique = Dict.set-IsMap id (record t { member_keys = []; active = false }) m.teams h.unique;
    distinct = λ i.
        rw (members-deleted i) (IsDistinct-if (str_eq id i) [] (members i m) tt (h.distinct i));
    small = λ i. ground (arith, members-deleted i, h.small i);
  }
