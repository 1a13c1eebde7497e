-- ===== src/Teams/Members/Run.antt =====
-- Any sequence of calls of the methods of src/teams.ts, and the index of members after it.
use paygate_mcp.Base.{
  ℕ, ◌≡◌, ◌≢◌, ◌↔◌, refl, String, true, Option, none, some, List, [], ◌∷◌, arith, length,
  Option-cases, Bool-cases, inl, inr, leb,
}
use paygate_mcp.Base.Dict
use paygate_mcp.Base.Text.{given, includes}
use paygate_mcp.Types.{QuotaConfig}
use paygate_mcp.Teams.{
  TeamRecord, TeamManager, empty, put_team, create_team, generate_id, update_team, update_budget,
  update_quota, delete_team, assign_key, remove_key, check_quota, check_team_quota, record_usage,
  add_usage, team_of, get_team_for_key, elsewhere, reset_quota_counters, active_only,
}
use paygate_mcp.Teams.Members.{members, IsIndexed}
use paygate_mcp.Teams.Members.Preserved.{
  put_team-IsIndexed, added-IsIndexed, removed-IsIndexed, deleted-IsIndexed, own, own_active,
  given_same,
}

pub data Call : Type 0 where
  create : String → ℕ → Option QuotaConfig → Call
  update : String → Option ℕ → Option (Option QuotaConfig) → Call
  delete : String → Call
  assign : String → String → Call
  remove : String → String → Call
  checked : String → ℕ → Call
  recorded : String → ℕ → Call

unfoldable pub apply : ℕ → Call → TeamManager → TeamManager
apply now (create hex budget quota) m = (create_team hex budget quota now m).1
apply now (update id budget quota) m = (update_team id budget quota m).1
apply now (delete id) m = (delete_team id m).1
apply now (assign id key) m = (assign_key id key m).1
apply now (remove id key) m = (remove_key id key m).1
apply now (checked key credits) m = (check_quota key credits now m).1
apply now (recorded key credits) m = record_usage key credits now m

unfoldable pub run : List (ℕ × Call) → TeamManager → TeamManager
run [] m = m
run ((now, c) ∷ cs) m = run cs (apply now c m)

-- The random part of a new team's id gives no id that is taken.
abbrev pub IsFresh : Call → TeamManager → Type 0
IsFresh (create hex budget quota) m = Dict.get (generate_id hex) m.teams ≡ none
IsFresh _ m = Unit {0}

abbrev pub AllFresh : List (ℕ × Call) → TeamManager → Type 0
AllFresh [] m = Unit {0}
AllFresh ((now, c) ∷ cs) m = IsFresh c m × AllFresh cs (apply now c m)

generated : (hex : String) → given (some (generate_id hex)) ≢ none
unfolding given
generated hex n = ground (arith, append_cons)
  where
    append_cons : generate_id hex ≡ String.◌∷◌ "t" (Prim.Native.String.◌++◌ "eam_" hex)
    append_cons = Prim.Native.String.append.cons "t" "eam_" hex

module _ (m : TeamManager) (h : IsIndexed m) where
  -- A record that is written back with the members and the activity that it had.
  same-IsIndexed :
      (t t' : TeamRecord) (id : String)
      → Dict.get id m.teams ≡ some t
      → t'.member_keys ≡ t.member_keys
      → t'.active ≡ t.active
      → IsIndexed (put_team t' id m)
  same-IsIndexed t t' id e k a =
      put_team-IsIndexed t' id m (ground (arith, own id m t e))
        (λ d. h.closed id (ground (arith, own_active id m t e))) (λ n. ground (arith, h.named id n))
        h

  active_found :
      (id : String) (t : TeamRecord)
      → active_only (Dict.get id m.teams) ≡ some t
      → (Dict.get id m.teams ≡ some t) × (t.active ≡ true)
  active_found id t e = ground arith

  create-IsIndexed :
      (hex : String) (budget : ℕ) (quota : Option QuotaConfig) (now : ℕ)
      → Dict.get (generate_id hex) m.teams ≡ none
      → IsIndexed (create_team hex budget quota now m).1
  unfolding create_team
  create-IsIndexed hex budget quota now free =
      put_team-IsIndexed (create_team hex budget quota now m).0 (generate_id hex) m (ground arith)
        (λ d. ground arith) (λ n. generated hex n) h

  update-IsIndexed :
      (id : String) (budget : Option ℕ) (quota : Option (Option QuotaConfig))
      → IsIndexed (update_team id budget quota m).1
  unfolding update_team
  update-IsIndexed id budget quota = elim (Option-cases (active_only (Dict.get id m.teams))) [
    | inl e ↦ rw (update_team, e) h
    | inr (t, e) ↦
        rw (update_team, e)
          (same-IsIndexed t (update_quota quota (update_budget budget t)) id (active_found id t e).0
            (ground arith) (ground arith))
  ]

  delete-IsIndexed : (id : String) → IsIndexed (delete_team id m).1
  unfolding delete_team
  delete-IsIndexed id = elim (Option-cases (active_only (Dict.get id m.teams))) [
    | inl e ↦ rw (delete_team, e) h
    | inr (t, e) ↦ rw (delete_team, e) (deleted-IsIndexed t id id m h (active_found id t e).0)
  ]

  remove-IsIndexed : (id key : String) → IsIndexed (remove_key id key m).1
  unfolding remove_key
  remove-IsIndexed id key = elim (Option-cases (Dict.get id m.teams)) [
    | inl e ↦ rw (remove_key, e) h
    | inr (t, e) ↦ elim (Bool-cases (includes key t.member_keys)) [
      | inl b ↦ rw (remove_key, e, b) (removed-IsIndexed t id key m h e b)
      | inr b ↦ rw (remove_key, e, b) h
    ]
  ]

  assign-IsIndexed : (id key : String) → IsIndexed (assign_key id key m).1
  unfolding assign_key
  assign-IsIndexed id key = elim (Option-cases (active_only (Dict.get id m.teams))) [
    | inl e ↦ rw (assign_key, e) h
    | inr (t, e) ↦
        rw (assign_key, e)
          (elim (Bool-cases (elsewhere id (given (Dict.get key m.key_to_team)))) [
            | inl b ↦ rw b h
            | inr b ↦ elim (Bool-cases (includes key t.member_keys)) [
              | inl i ↦ rw (b, i) h
              | inr i ↦ elim (Bool-cases (leb 100 (length t.member_keys))) [
                | inl l ↦ rw (b, i, l) h
                | inr l ↦
                    rw (b, i, l)
                      (added-IsIndexed t id key m h (active_found id t e).0 (active_found id t e).1
                        b i (ground arith))
              ]
            ]
          ])
  ]

  found_active :
      (key id : String) (t : TeamRecord)
      → team_of key m ≡ some (id, t)
      → (Dict.get id m.teams ≡ some t) × (t.active ≡ true)
  unfolding team_of
  found_active key id t e = ground arith

  checked-IsIndexed :
      (credits now : ℕ) (id : String) (t : TeamRecord) (quota : Option QuotaConfig)
      → Dict.get id m.teams ≡ some t
      → IsIndexed (check_team_quota credits now id t quota m).1
  unfolding reset_quota_counters
  checked-IsIndexed credits now id t none e = h
  checked-IsIndexed credits now id t (some q) e =
      same-IsIndexed t (reset_quota_counters now t) id e (ground arith) (ground arith)

  check-IsIndexed : (key : String) (credits now : ℕ) → IsIndexed (check_quota key credits now m).1
  unfolding check_quota
  check-IsIndexed key credits now = elim (Option-cases (team_of key m)) [
    | inl e ↦ rw (check_quota, e) h
    | inr ((id, t), e) ↦
        rw (check_quota, e) (checked-IsIndexed credits now id t t.quota (found_active key id t e).0)
  ]

  record-IsIndexed : (key : String) (credits now : ℕ) → IsIndexed (record_usage key credits now m)
  unfolding record_usage reset_quota_counters
  record-IsIndexed key credits now = elim (Option-cases (team_of key m)) [
    | inl e ↦ rw (record_usage, e) h
    | inr ((id, t), e) ↦
        rw (record_usage, e)
          (same-IsIndexed t (add_usage credits (reset_quota_counters now t)) id
            (found_active key id t e).0 (ground arith) (ground arith))
  ]

  listed_given :
      (key id : String)
      → Dict.get key m.key_to_team ≡ some id
      → given (Dict.get key m.key_to_team) ≡ some id
  unfolding given includes
  listed_given key id e = elim (Option-cases (given (some id))) [
    | inl n ↦ ground (arith, h.named id n, h.indexed key id e)
    | inr (o, g) ↦ ground (arith, given_same id o g)
  ]

  unguarded :
      (key id : String)
      → given (Dict.get key m.key_to_team) ≡ some id
      → Dict.get key m.key_to_team ≡ some id
  unfolding given
  unguarded key id e = elim (Option-cases (Dict.get key m.key_to_team)) [
    | inl n ↦ ground arith
    | inr (o, g) ↦ ground (arith, given_same o id)
  ]

  members_active :
      (key id : String) (t : TeamRecord)
      → Dict.get id m.teams ≡ some t
      → includes key t.member_keys ≡ true
      → t.active ≡ true
  unfolding includes
  members_active key id t e i = ground (arith, h.closed id, own id m t e, own_active id m t e)

  includes_iff :
      (key id : String) → (includes key (members id m) ≡ true) ↔ (get_team_for_key key m ≡ some id)
  unfolding includes
  includes_iff key id =
      (λ i. listed_given key id (h.listed key id i), λ e. h.indexed key id (unguarded key id e))

  team_of_id :
      (key id : String) (t : TeamRecord)
      → team_of key m ≡ some (id, t)
      → get_team_for_key key m ≡ some id
  unfolding team_of
  team_of_id key id t e = ground arith

  team_of_iff :
      (key id : String) (t : TeamRecord)
      → (team_of key m ≡ some (id, t))
        ↔ ((Dict.get id m.teams ≡ some t) × (includes key t.member_keys ≡ true))
  unfolding team_of includes
  team_of_iff key id t = (
    λ e.
        let found : Dict.get id m.teams ≡ some t = (found_active key id t e).0 in
        (found, ground (arith, own id m t found, (includes_iff key id).1 (team_of_id key id t e))),
    λ (e, i). ground (
      arith,
      members_active key id t e i,
      (includes_iff key id).0 (ground (arith, own id m t e)),
    ),
  )

apply-IsIndexed :
    (now : ℕ) (c : Call) (m : TeamManager) → IsIndexed m → IsFresh c m → IsIndexed (apply now c m)
unfolding apply
apply-IsIndexed now (create hex budget quota) m h f = create-IsIndexed m h hex budget quota now f
apply-IsIndexed now (update id budget quota) m h f = update-IsIndexed m h id budget quota
apply-IsIndexed now (delete id) m h f = delete-IsIndexed m h id
apply-IsIndexed now (assign id key) m h f = assign-IsIndexed m h id key
apply-IsIndexed now (remove id key) m h f = remove-IsIndexed m h id key
apply-IsIndexed now (checked key credits) m h f = check-IsIndexed m h key credits now
apply-IsIndexed now (recorded key credits) m h f = record-IsIndexed m h key credits now

run-IsIndexed_from :
    (cs : List (ℕ × Call)) (m : TeamManager) → IsIndexed m → AllFresh cs m → IsIndexed (run cs m)
unfolding run
run-IsIndexed_from [] m h f = h
run-IsIndexed_from ((now, c) ∷ cs) m h f =
    run-IsIndexed_from cs (apply now c m) (apply-IsIndexed now c m h f.0) f.1

empty-IsIndexed : IsIndexed empty
unfolding Dict.get includes
empty-IsIndexed = record {
  indexed = λ key id e. ground arith;
  listed = λ key id e. ground arith;
  named = λ id e. refl;
  closed = λ id e. refl;
  unique = tt;
  distinct = λ id. tt;
  small = λ id. omega arith;
}

-- Start without teams and make any calls of the manager's methods, where the random part of each new
-- team's id is fresh. Then the reverse index and the member lists say the same in both directions, no
-- team lists a key twice or has more than 100 members, a deleted team has none, and so no key is in
-- two teams: a team that lists a key is an active one, and it is the one the manager finds for the key.
pub run-members :
    (cs : List (ℕ × Call))
    → AllFresh cs empty
    → let m = run cs empty in
      IsIndexed m
      × ((key id : String)
          → (includes key (members id m) ≡ true) ↔ (get_team_for_key key m ≡ some id))
      × ((key id : String) (t : TeamRecord)
          → (team_of key m ≡ some (id, t))
            ↔ ((Dict.get id m.teams ≡ some t) × (includes key t.member_keys ≡ true)))
run-members cs f =
    let h : IsIndexed (run cs empty) = run-IsIndexed_from cs empty empty-IsIndexed f in
    (h, includes_iff (run cs empty) h, team_of_iff (run cs empty) h)
