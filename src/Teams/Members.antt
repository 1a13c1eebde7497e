-- ===== src/Teams/Members.antt =====
-- Membership in src/teams.ts: the reverse index from keys to teams against the teams' member lists.
pub mod Preserved
pub mod Run
use text.Mathlib.TextEquality.{eq_iff}
use paygate_mcp.Base.{
  ℕ, ◌≤◌, ◌≡◌, ◌↔◌, refl, String, Bool, true, false, Option, none, some, List, [], ◌∷◌, ◌++◌, arith,
  length, if◌then◌else◌, Option-cases, Bool-cases, ◌||◌, not, ◌&&◌,
}
use paygate_mcp.Base.Dict
use paygate_mcp.Base.Dict.{Dict, get-set, get-delete}
use paygate_mcp.Base.Names.{IsDistinct}
use paygate_mcp.Base.Text.{given, includes, str_eq, str_eq_refl}
use paygate_mcp.Types.{QuotaConfig}
use paygate_mcp.Teams.{
  TeamRecord, TeamManager, empty, put_team, create_team, generate_id, update_team, delete_team,
  assign_key, remove_key, remove_first, unassign, check_quota, record_usage, team_of,
  get_team_for_key,
}

-- The keys that a team lists, none where there is no such team.
abbrev pub members : String → TeamManager → List String
members id m = elim (Dict.get id m.teams) [ none ↦ [] | some t ↦ t.member_keys ]

abbrev pub is_active : String → TeamManager → Bool
is_active id m = elim (Dict.get id m.teams) [ none ↦ false | some t ↦ t.active ]

-- The index and the member lists say the same, no team lists a key twice or has more than 100, a deleted
-- team has no members, no team has the empty text as its id, and no
-- id is taken twice.
pub record IsIndexed (m : TeamManager) : Type 0 where
  pub indexed :
      (key id : String) → Dict.get key m.key_to_team ≡ some id → includes key (members id m) ≡ true
  pub listed :
      (key id : String) → includes key (members id m) ≡ true → Dict.get key m.key_to_team ≡ some id
  pub named : (id : String) → given (some id) ≡ none → Dict.get id m.teams ≡ none
  pub closed : (id : String) → is_active id m ≡ false → members id m ≡ []
  pub unique : Dict.IsMap m.teams
  pub distinct : (id : String) → IsDistinct (members id m)
  pub small : (id : String) → length (members id m) ≤ 100

pub includes-remove_first :
    (k key : String) (xs : List String)
    → IsDistinct xs
    → includes k (remove_first key xs) ≡ (if str_eq key k then false else includes k xs)
unfolding includes remove_first
includes-remove_first k key [] d = ground arith
includes-remove_first k key (x ∷ xs) d =
    ground (arith, includes-remove_first k key xs d.1, eq_iff x key, eq_iff x k, eq_iff key k)

pub remove_first-IsDistinct :
    (key : String) (xs : List String) → IsDistinct xs → IsDistinct (remove_first key xs)
unfolding remove_first
remove_first-IsDistinct key [] d = tt
remove_first-IsDistinct key (x ∷ xs) d =
    ground (arith, remove_first-IsDistinct key xs d.1, includes-remove_first x key xs d.1)

pub length-remove_first :
    (key : String) (xs : List String) → length (remove_first key xs) ≤ length xs
unfolding remove_first
length-remove_first key [] = omega arith
length-remove_first key (x ∷ xs) = ground (arith, length-remove_first key xs)

pub get-unassign :
    (k : String) (keys : List String) (index : Dict String)
    → Dict.get k (unassign keys index) ≡ (if includes k keys then none else Dict.get k index)
unfolding unassign includes
get-unassign k [] index = refl
get-unassign k (key ∷ keys) index =
    ground (arith, get-unassign k keys (Dict.delete key index), get-delete key k index)
