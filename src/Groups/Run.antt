-- ===== src/Groups/Run.antt =====
-- Sequences of calls of src/groups.ts.
use text.Mathlib.TextEquality.{eq_iff}
use paygate_mcp.Base.{
  String, ◌≡◌, ◌⊎◌, refl, inl, inr, true, false, none, some, List, [], ◌∷◌, arith, Bool-cases,
  Option-cases,
}
use paygate_mcp.Base.Dict.{Dict, get, get-set, get-delete, IsMap, set-IsMap, delete-IsMap}
use paygate_mcp.Base.Text.{str_eq}
use paygate_mcp.Groups.{KeyGroup, GroupManager, active_only, get_key_group}
use paygate_mcp.Groups.Admin.{
  GroupParams, GroupUpdates, create_group, update_group, unassign, delete_group, assign_key,
  remove_key,
}
use paygate_mcp.Groups.Sound.{IsSound, create-IsSound, update_named-IsSound}

-- What the search for an active group finds.
found_active :
    (id : String) (m : Dict KeyGroup)
    → (active_only (get id m) ≡ none)
      ⊎ ((g : KeyGroup) × (active_only (get id m) ≡ some g)
          × (get id m ≡ some g)
          × (g.active ≡ true))
found_active id m = elim (Option-cases (get id m)) [
  | inl missing ↦ inl (ground arith)
  | inr (g, there) ↦ elim (Bool-cases g.active) [
    | inl live ↦ inr (g, ground arith, there, live)
    | inr gone ↦ inl (ground arith)
  ]
]

unassign_missing :
    (id key : String) (m : Dict String) → get key m ≡ none → get key (unassign id m) ≡ none
unfolding unassign get
unassign_missing id key [] e = refl
unassign_missing id key ((k, gid) ∷ m) e = ground (arith, unassign_missing id key m)

unassign_left :
    (id key gid : String) (m : Dict String)
    → IsMap m
    → get key (unassign id m) ≡ some gid
    → (get key m ≡ some gid) × (str_eq gid id ≡ false)
unfolding unassign get
unassign_left id key gid [] h e = cc
unassign_left id key gid ((k, x) ∷ m) h e =
    ground (arith, eq_iff k key, unassign_missing id k m h.0, unassign_left id key gid m h.1)

unassign-IsMap : (id : String) (m : Dict String) → IsMap m → IsMap (unassign id m)
unfolding unassign
unassign-IsMap id [] h = tt
unassign-IsMap id ((k, x) ∷ m) h = elim (Bool-cases (str_eq x id)) [
  | inl same ↦ rw (unassign, same) (unassign-IsMap id m h.1)
  | inr other ↦ rw (unassign, other) (unassign_missing id k m h.0, unassign-IsMap id m h.1)
]

delete-IsSound : (id : String) (m : GroupManager) → IsSound m → IsSound (delete_group id m).1
unfolding delete_group
delete-IsSound id m s = elim (found_active id m.groups) [
  | inl missing ↦ rw (delete_group, missing) s
  | inr (g, found, there, live) ↦
      rw (delete_group, found)
        (record {
          own = λ i h e. ground (
            arith,
            get-set id i (record g { active = false }) m.groups,
            eq_iff id i,
            s.own i h,
            s.own id g there,
          );
          unique = λ i j h k e f a b n. ground (
            arith,
            get-set id i (record g { active = false }) m.groups,
            get-set id j (record g { active = false }) m.groups,
            s.unique i j h k,
          );
          assigned = λ key i e.
              let (old, other) = unassign_left id key i m.key_to_group s.once e in
              let (h, f, a) = s.assigned key i old in
              (
                h,
                ground (
                  arith,
                  get-set id i (record g { active = false }) m.groups,
                  eq_iff id i,
                  eq_iff i id,
                ),
                a,
              );
          once = unassign-IsMap id m.key_to_group s.once;
        })
]

assign-IsSound : (key id : String) (m : GroupManager) → IsSound m → IsSound (assign_key key id m).1
unfolding assign_key
assign-IsSound key id m s = elim (found_active id m.groups) [
  | inl missing ↦ rw (assign_key, missing) s
  | inr (g, found, there, live) ↦
      rw (assign_key, found)
        (record {
          own = s.own;
          unique = s.unique;
          assigned = λ k i e. elim (Bool-cases (str_eq key k)) [
            | inl same ↦ (g, ground (arith, get-set key k id m.key_to_group), live)
            | inr other ↦ s.assigned k i (ground (arith, get-set key k id m.key_to_group))
          ];
          once = set-IsMap key id m.key_to_group s.once;
        })
]

remove-IsSound : (key : String) (m : GroupManager) → IsSound m → IsSound (remove_key key m).1
unfolding remove_key
remove-IsSound key m s = record {
  own = s.own;
  unique = s.unique;
  assigned = λ k i e. s.assigned k i (ground (arith, get-delete key k m.key_to_group));
  once = delete-IsMap key m.key_to_group s.once;
}

pub data Call : Type 0 where
  creates : String → GroupParams → Call
  updates : String → GroupUpdates → Call
  deletes removes : String → Call
  assigns : String → String → Call

unfoldable pub call : Call → GroupManager → GroupManager
call (creates hex p) m = (create_group hex p m).1
call (updates id u) m = (update_group id u m).1
call (deletes id) m = (delete_group id m).1
call (removes key) m = (remove_key key m).1
call (assigns key id) m = (assign_key key id m).1

unfoldable pub run : List Call → GroupManager → GroupManager
run [] m = m
run (c ∷ cs) m = run cs (call c m)

call-IsSound : (c : Call) (m : GroupManager) → IsSound m → IsSound (call c m)
unfolding call
call-IsSound (creates hex p) m s = create-IsSound hex p m s
call-IsSound (updates id u) m s =
    unfold update_group in
    elim (found_active id m.groups) [
      | inl missing ↦ rw (call, update_group, missing) s
      | inr (g, found, there, live) ↦
          rw (call, update_group, found) (update_named-IsSound id u g m s there live u.name)
    ]
call-IsSound (deletes id) m s = delete-IsSound id m s
call-IsSound (removes key) m s = remove-IsSound key m s
call-IsSound (assigns key id) m s = assign-IsSound key id m s

every_run : (cs : List Call) (m : GroupManager) → IsSound m → IsSound (run cs m)
unfolding run
every_run [] m s = s
every_run (c ∷ cs) m s = every_run cs (call c m) (call-IsSound c m s)

get_key_group-assigned :
    (key : String) (m : GroupManager)
    → IsSound m
    → ((get_key_group key m).1 ≡ m)
      × ((id : String)
          → get key m.key_to_group ≡ some id
          → (get_key_group key m).0 ≡ get id m.groups)
unfolding get_key_group
get_key_group-assigned key m s = elim (Option-cases (get key m.key_to_group)) [
  | inl free ↦ (ground arith, λ id f. ground arith)
  | inr (gid, e) ↦
      let (g, there, live) = s.assigned key gid e in (ground arith, λ id f. ground arith)
]

abbrev pub no_groups : GroupManager
no_groups = record { groups = []; key_to_group = [] }

no_groups-IsSound : IsSound no_groups
unfolding get
no_groups-IsSound = record {
  own = λ id g e. cc;
  unique = λ i j g h e f a b n. cc;
  assigned = λ key id e. absurd (ground arith);
  once = tt;
}

-- After any calls that create, update and delete groups and assign and remove keys, successful or not,
-- from no groups: no two active groups have the same name, each group stands under its own id, and a
-- key that is assigned is assigned to one group, which is active and is the one that is found for it;
-- the search for the group of a key then never has an assignment to clean up.
pub run-IsSound :
    (cs : List Call) (key : String)
    → let m = run cs no_groups in
      IsSound m
      × ((get_key_group key m).1 ≡ m)
      × ((id : String)
          → get key m.key_to_group ≡ some id
          → (get_key_group key m).0 ≡ get id m.groups)
run-IsSound cs key =
    let sound = every_run cs no_groups no_groups-IsSound in
    let (same, found) = get_key_group-assigned key (run cs no_groups) sound in (sound, same, found)
