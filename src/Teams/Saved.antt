-- ===== src/Teams/Saved.antt =====
-- The teams of src/teams.ts after they are saved and read back.
use text.Mathlib.TextEquality.{eq_iff}
use paygate_mcp.Base.{
  ◌≡◌, ◌≢◌, ◌⊎◌, refl, sym, ◌∙◌, inl, inr, String, true, Option, none, some, List, [], ◌∷◌, arith,
  if◌then◌else◌, Option-cases, Bool-cases,
}
use paygate_mcp.Base.Dict
use paygate_mcp.Base.Dict.{Dict, get-set, IsMap}
use paygate_mcp.Base.Text.{given, includes, str_eq, str_eq_refl}
use paygate_mcp.Teams.{TeamRecord, TeamManager, empty, to_json, from_json, assign_all, restore_team}
use paygate_mcp.Teams.Members.{IsIndexed}
use paygate_mcp.Teams.Members.Preserved.{own}

get-assign_all :
    (k id : String) (keys : List String) (index : Dict String)
    → Dict.get k (assign_all id keys index)
      ≡ (if includes k keys then some id else Dict.get k index)
unfolding assign_all includes
get-assign_all k id [] index = refl
get-assign_all k id (key ∷ keys) index =
    ground (arith, get-assign_all k id keys (Dict.set key id index), get-set key k id index)

-- What is saved of one manager: named ids, and members that the index leads to.
module _ (target : String → Option String) where
  abbrev IsSaved : List (String × TeamRecord) → Type 0
  IsSaved [] = Unit {0}
  IsSaved ((id, t) ∷ saved) =
      (given (some id) ≢ none)
      × ((key : String) → includes key t.member_keys ≡ true → target key ≡ some id)
      × IsSaved saved

  abbrev IsPartial : Dict String → Type 0
  IsPartial index = (key : String) → (Dict.get key index ≡ none) ⊎ (Dict.get key index ≡ target key)

  from_json-named :
      (id : String) (t : TeamRecord) (saved : List (String × TeamRecord)) (m : TeamManager)
      → given (some id) ≢ none
      → from_json ((id, t) ∷ saved) m ≡ from_json saved (restore_team id t m)
  unfolding from_json
  from_json-named id t saved m name = elim (Option-cases (given (some id))) [
    | inl n ↦ ground arith
    | inr (o, g) ↦ rw (from_json, g) refl
  ]

  restored :
      (id : String) (t : TeamRecord) (index : Dict String)
      → ((key : String) → includes key t.member_keys ≡ true → target key ≡ some id)
      → IsPartial index
      → IsPartial (assign_all id t.member_keys index)
  restored id t index named h key = elim (Bool-cases (includes key t.member_keys)) [
    | inl b ↦ inr (ground (arith, get-assign_all key id t.member_keys index, named key b))
    | inr b ↦ elim (h key) [
      | inl n ↦ inl (ground (arith, get-assign_all key id t.member_keys index))
      | inr e ↦ inr (ground (arith, get-assign_all key id t.member_keys index))
    ]
  ]

  -- What is in the index already stays, and so do the members that are read.
  kept :
      (saved : List (String × TeamRecord)) (m : TeamManager) (key : String)
      → IsSaved saved
      → IsPartial m.key_to_team
      → Dict.get key m.key_to_team ≢ none
      → Dict.get key (from_json saved m).key_to_team ≡ target key
  kept [] m key s h there = unfold from_json in elim (h key) [ inl n ↦ ground arith | inr e ↦ e ]
  kept ((id, t) ∷ saved) m key s h there = rw (from_json-named id t saved m s.0) (
      kept saved (restore_team id t m) key s.2 (restored id t m.key_to_team s.1 h)
        (λ n. ground (arith, get-assign_all key id t.member_keys m.key_to_team)))

  partial :
      (saved : List (String × TeamRecord)) (m : TeamManager)
      → IsSaved saved
      → IsPartial m.key_to_team
      → IsPartial (from_json saved m).key_to_team
  partial [] m s h = unfold from_json in h
  partial ((id, t) ∷ saved) m s h =
      rw (from_json-named id t saved m s.0)
        (partial saved (restore_team id t m) s.2 (restored id t m.key_to_team s.1 h))

  found :
      (saved : List (String × TeamRecord)) (m : TeamManager) (key id : String) (t : TeamRecord)
      → IsSaved saved
      → IsPartial m.key_to_team
      → Dict.get id saved ≡ some t
      → includes key t.member_keys ≡ true
      → Dict.get key (from_json saved m).key_to_team ≡ target key
  unfolding Dict.get
  found [] m key id t s h e i = ground arith
  found ((id', t') ∷ saved) m key id t s h e i = elim (Bool-cases (str_eq id' id)) [
    | inl b ↦ rw (from_json-named id' t' saved m s.0) (
        kept saved (restore_team id' t' m) key s.2 (restored id' t' m.key_to_team s.1 h)
          (λ n. ground (arith, get-assign_all key id' t'.member_keys m.key_to_team)))
    | inr b ↦ rw (from_json-named id' t' saved m s.0) (
        found saved (restore_team id' t' m) key id t s.2 (restored id' t' m.key_to_team s.1 h)
          (ground arith) i)
  ]

  get-from_json :
      (saved : List (String × TeamRecord)) (m : TeamManager) (id : String)
      → IsSaved saved
      → IsMap saved
      → Dict.get id (from_json saved m).teams
        ≡ (elim (Dict.get id saved) [ none ↦ Dict.get id m.teams | some t ↦ some t ])
  unfolding Dict.get
  get-from_json [] m id s u = unfold from_json in refl
  get-from_json ((id', t') ∷ saved) m id s u = rw (from_json-named id' t' saved m s.0) (
      ground (
        arith,
        get-from_json saved (restore_team id' t' m) id s.2 u.1,
        get-set id' id t' m.teams,
        eq_iff id' id,
      ))

  all-IsSaved :
      (saved : List (String × TeamRecord))
      → IsMap saved
      → ((id : String) (t : TeamRecord)
          → Dict.get id saved ≡ some t
          → (given (some id) ≢ none)
            × ((key : String) → includes key t.member_keys ≡ true → target key ≡ some id))
      → IsSaved saved
  unfolding Dict.get
  all-IsSaved [] u h = tt
  all-IsSaved ((id, t) ∷ saved) u h =
      let here = h id t (ground (arith, str_eq_refl id)) in
      (here.0, here.1, all-IsSaved saved u.1 (λ id' t' e. h id' t' (ground (arith, eq_iff id id'))))

empty-IsPartial : (target : String → Option String) → IsPartial target []
unfolding Dict.get
empty-IsPartial target key = inl refl

over_empty :
    (id : String) (o : Option TeamRecord)
    → (elim o [ none ↦ Dict.get {V = TeamRecord} id [] | some t ↦ some t ]) ≡ o
unfolding Dict.get
over_empty id none = refl
over_empty id (some t) = refl

indexed_team :
    (m : TeamManager) (key id : String)
    → IsIndexed m
    → Dict.get key m.key_to_team ≡ some id
    → (t : TeamRecord) × (Dict.get id m.teams ≡ some t) × (includes key t.member_keys ≡ true)
unfolding includes
indexed_team m key id h e = elim (Option-cases (Dict.get id m.teams)) [
  | inl n ↦ ground (arith, h.indexed key id e)
  | inr (t, f) ↦ (t, f, ground (arith, h.indexed key id e, own id m t f))
]

-- Take a manager whose index and member lists agree, as after any calls from the start. Saved with
-- toJSON and read back with fromJSON into a new manager, it gives a manager that has the same team under
-- each id and leads each key to the same team, although the index is not saved.
pub from_json-to_json :
    (m : TeamManager)
    → IsIndexed m
    → let m' = from_json (to_json m) empty in
      ((id : String) → Dict.get id m'.teams ≡ Dict.get id m.teams)
      × ((key : String) → Dict.get key m'.key_to_team ≡ Dict.get key m.key_to_team)
unfolding to_json
from_json-to_json m h = (
  λ id. get-from_json target m.teams empty id saved h.unique ∙ over_empty id (Dict.get id m.teams),
  λ key. elim (Option-cases (Dict.get key m.key_to_team)) [
    | inl n ↦ elim (partial target m.teams empty saved (empty-IsPartial target) key) [
      | inl e ↦ e ∙ sym n
      | inr e ↦ e
    ]
    | inr (id, e) ↦
        let (t, f, i) = indexed_team m key id h e in
        found target m.teams empty key id t saved (empty-IsPartial target) f i
  ],
)
  where
    target : String → Option String
    target key = Dict.get key m.key_to_team

    saved : IsSaved target m.teams
    saved = all-IsSaved target m.teams h.unique (λ id t e. (
      λ n. ground (arith, h.named id n),
      λ key i. h.listed key id (ground (arith, own id m t e)),
    ))
