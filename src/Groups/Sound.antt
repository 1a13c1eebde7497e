-- ===== src/Groups/Sound.antt =====
-- What every sequence of calls of src/groups.ts keeps.
use text.Mathlib.TextEquality.{eq_iff}
use paygate_mcp.Base.{
  String, ◌≡◌, refl, inl, inr, true, false, not, ◌&&◌, Option, none, some, [], ◌∷◌, arith, if_both,
  Bool-cases,
}
use paygate_mcp.Base.Dict.{Dict, get, get-set, IsMap}
use paygate_mcp.Base.Text.{str_eq}
use paygate_mcp.Keys.Admin.{trim, is_empty}
use paygate_mcp.Groups.{KeyGroup, GroupManager}
use paygate_mcp.Groups.Admin.{
  GroupParams, GroupUpdates, GroupReply, name_taken, taken_by_other, is_named, put_group, new_group,
  updated, group_id, create_group, rename_group, update_named,
}

-- An active group of the id.
abbrev pub IsActive : GroupManager → String → Type 0
IsActive m id = (g : KeyGroup) × (get id m.groups ≡ some g) × (g.active ≡ true)

-- A group stands under its own id, no two active groups have one name, and keys are assigned to
-- active groups only, each to one.
pub record IsSound (m : GroupManager) : Type 0 where
  pub own : (id : String) (g : KeyGroup) → get id m.groups ≡ some g → g.id ≡ id
  pub unique :
      (i j : String) (g h : KeyGroup)
      → get i m.groups ≡ some g
      → get j m.groups ≡ some h
      → g.active ≡ true
      → h.active ≡ true
      → g.name ≡ h.name
      → i ≡ j
  pub assigned : (key id : String) → get key m.key_to_group ≡ some id → IsActive m id
  pub once : IsMap m.key_to_group

name_taken-get :
    (name id : String) (g : KeyGroup) (m : Dict KeyGroup)
    → name_taken name m ≡ false
    → get id m ≡ some g
    → is_named name g ≡ false
unfolding name_taken get
name_taken-get name id g [] h e = cc
name_taken-get name id g ((i, x) ∷ m) h e = ground (arith, name_taken-get name id g m)

taken_by_other-get :
    (name id other : String) (g : KeyGroup) (m : Dict KeyGroup)
    → taken_by_other name id m ≡ false
    → get other m ≡ some g
    → (is_named name g && not (str_eq g.id id)) ≡ false
unfolding taken_by_other get
taken_by_other-get name id other g [] h e = cc
taken_by_other-get name id other g ((i, x) ∷ m) h e =
    ground (arith, taken_by_other-get name id other g m)

-- A group that is put in stands under its id, is active, and has a name that no other active one has.
put_group-IsSound :
    (id : String) (g : KeyGroup) (m : GroupManager)
    → IsSound m
    → g.id ≡ id
    → g.active ≡ true
    → ((other : String) (h : KeyGroup)
        → get other m.groups ≡ some h
        → h.active ≡ true
        → h.name ≡ g.name
        → other ≡ id)
    → IsSound (put_group id g m)
put_group-IsSound id g m s own live alone = record {
  own = λ i h e. ground (arith, get-set id i g m.groups, eq_iff id i, s.own i h);
  unique = λ i j h k e f a b n. ground (
    arith,
    get-set id i g m.groups,
    get-set id j g m.groups,
    eq_iff id i,
    eq_iff id j,
    alone i h,
    alone j k,
    s.unique i j h k,
  );
  assigned = λ key i e.
      let (h, f, a) = s.assigned key i e in
      elim (Bool-cases (str_eq id i)) [
        | inl same ↦ (g, ground (arith, get-set id i g m.groups), live)
        | inr other ↦ (h, ground (arith, get-set id i g m.groups), a)
      ];
  once = s.once;
}

pub create-IsSound :
    (hex : String) (p : GroupParams) (m : GroupManager)
    → IsSound m
    → IsSound (create_group hex p m).1
unfolding create_group
create-IsSound hex p m s =
    if_both Fine (is_empty (trim p.name)) _ _ s
      (elim (Bool-cases (name_taken (trim p.name) m.groups)) [
        | inl taken ↦ rw taken s
        | inr new ↦ rw new (
            put_group-IsSound (group_id hex) (new_group (group_id hex) (trim p.name) p) m s refl
              refl
              (λ other h e live same. absurd (
                ground (
                  arith,
                  name_taken-get (trim p.name) other h m.groups new e,
                  eq_iff h.name (trim p.name),
                ))))
      ])
  where
    Fine : GroupReply × GroupManager → Type 0
    Fine r = IsSound r.1

module _ (id : String) (u : GroupUpdates) (g : KeyGroup) (m : GroupManager) (s : IsSound m)
    (there : get id m.groups ≡ some g) (live : g.active ≡ true) where
  same_name-IsSound : IsSound (put_group id (updated u g.name g) m)
  same_name-IsSound =
      put_group-IsSound id (updated u g.name g) m s (s.own id g there) live
        (λ other h e a n. s.unique other id h g e there a live n)

  rename-IsSound : (name : String) → IsSound (rename_group id u g name m).1
  rename-IsSound name =
      if_both (λ (r : GroupReply × GroupManager). IsSound r.1) (is_empty name) _ _ s
        (elim (Bool-cases (taken_by_other name id m.groups)) [
          | inl taken ↦ rw taken s
          | inr new ↦ rw new (
              put_group-IsSound id (updated u name g) m s (s.own id g there) live (λ other h e a n.
                ground (
                  arith,
                  taken_by_other-get name id other h m.groups new e,
                  s.own other h e,
                  eq_iff h.name name,
                  eq_iff h.id id,
                )))
        ])

  pub update_named-IsSound : (name : Option String) → IsSound (update_named id u g name m).1
  update_named-IsSound none = same_name-IsSound
  update_named-IsSound (some name) =
      if_both (λ (r : GroupReply × GroupManager). IsSound r.1) (str_eq name g.name) _ _
        same_name-IsSound (rename-IsSound (trim name))
