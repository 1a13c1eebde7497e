-- ===== src/Groups/Admin.antt =====
-- The administration of groups in src/groups.ts. A method that throws answers with the reason here. The
-- random part of an id is an argument, and the file that groups are kept in is left out.
use Prim.Native.String
use paygate_mcp.Base.{
  ℕ, String, Bool, true, false, not, ◌&&◌, ◌||◌, Option, none, some, List, [], ◌∷◌, or_else,
  is_some, if◌then◌else◌,
}
use paygate_mcp.Base.Dict
use paygate_mcp.Base.Dict.{Dict}
use paygate_mcp.Base.Text.{str_eq}
use paygate_mcp.Types.{QuotaConfig}
use paygate_mcp.Keys.Admin.{trim, is_empty}
use paygate_mcp.Groups.{ToolPricing, KeyGroup, GroupManager, active_only}

pub record GroupParams : Type 0 where
  pub name : String
  pub allowed_tools : Option (List String)
  pub denied_tools : Option (List String)
  pub rate_limit_per_min : ℕ
  pub tool_pricing : Option (Dict ToolPricing)
  pub quota : Option QuotaConfig
  pub ip_allowlist : Option (List String)
  pub default_credits : ℕ
  pub max_spending_limit : ℕ

pub data GroupReply : Type 0 where
  must_have_name group_not_found : GroupReply
  already_exists : String → GroupReply
  saved : KeyGroup → GroupReply

abbrev pub is_named : String → KeyGroup → Bool
is_named name g = g.active && str_eq g.name name

-- An active group has the name.
unfoldable pub name_taken : String → Dict KeyGroup → Bool
name_taken name [] = false
name_taken name ((id, g) ∷ m) = is_named name g || name_taken name m

-- Another active group than `id` has the name.
unfoldable pub taken_by_other : String → String → Dict KeyGroup → Bool
taken_by_other name id [] = false
taken_by_other name id ((i, g) ∷ m) =
    (is_named name g && not (str_eq g.id id)) || taken_by_other name id m

-- `'grp_' + hex`
abbrev pub group_id : String → String
group_id hex = Prim.Native.String.◌++◌ "grp_" hex

abbrev pub put_group : String → KeyGroup → GroupManager → GroupManager
put_group id g m = record m { groups = Dict.set id g m.groups }

abbrev pub new_group : String → String → GroupParams → KeyGroup
new_group id name p = record {
  id = id;
  name = name;
  allowed_tools = or_else p.allowed_tools [];
  denied_tools = or_else p.denied_tools [];
  rate_limit_per_min = p.rate_limit_per_min;
  tool_pricing = or_else p.tool_pricing [];
  quota = p.quota;
  ip_allowlist = or_else p.ip_allowlist [];
  default_credits = p.default_credits;
  max_spending_limit = p.max_spending_limit;
  active = true;
}

abbrev pub create_named : String → String → GroupParams → GroupManager → GroupReply × GroupManager
create_named id name p m =
    if is_empty name
    then (must_have_name, m)
    else if name_taken name m.groups
    then (already_exists name, m)
    else (saved (new_group id name p), put_group id (new_group id name p) m)

unfoldable pub create_group : String → GroupParams → GroupManager → GroupReply × GroupManager
create_group hex p m = create_named (group_id hex) (trim p.name) p m

-- `none` leaves a part as it is; `some none` takes the quota away.
pub record GroupUpdates : Type 0 where
  pub name : Option String
  pub allowed_tools : Option (List String)
  pub denied_tools : Option (List String)
  pub rate_limit_per_min : Option ℕ
  pub tool_pricing : Option (Dict ToolPricing)
  pub quota : Option (Option QuotaConfig)
  pub ip_allowlist : Option (List String)
  pub default_credits : Option ℕ
  pub max_spending_limit : Option ℕ

abbrev pub updated : GroupUpdates → String → KeyGroup → KeyGroup
updated u name g = record g {
  name = name;
  allowed_tools = or_else u.allowed_tools g.allowed_tools;
  denied_tools = or_else u.denied_tools g.denied_tools;
  rate_limit_per_min = or_else u.rate_limit_per_min g.rate_limit_per_min;
  tool_pricing = or_else u.tool_pricing g.tool_pricing;
  quota = or_else u.quota g.quota;
  ip_allowlist = or_else u.ip_allowlist g.ip_allowlist;
  default_credits = or_else u.default_credits g.default_credits;
  max_spending_limit = or_else u.max_spending_limit g.max_spending_limit;
}

abbrev pub rename_group :
    String → GroupUpdates → KeyGroup → String → GroupManager → GroupReply × GroupManager
rename_group id u g name m =
    if is_empty name
    then (must_have_name, m)
    else if taken_by_other name id m.groups
    then (already_exists name, m)
    else (saved (updated u name g), put_group id (updated u name g) m)

abbrev pub update_named :
    String → GroupUpdates → KeyGroup → Option String → GroupManager → GroupReply × GroupManager
update_named id u g none m = (saved (updated u g.name g), put_group id (updated u g.name g) m)
update_named id u g (some name) m =
    if str_eq name g.name
    then (saved (updated u g.name g), put_group id (updated u g.name g) m)
    else rename_group id u g (trim name) m

unfoldable pub update_group : String → GroupUpdates → GroupManager → GroupReply × GroupManager
update_group id u m = elim (active_only (Dict.get id m.groups)) [
  | none ↦ (group_not_found, m)
  | some g ↦ update_named id u g u.name m
]

-- The assignments of other groups than `id`.
unfoldable pub unassign : String → Dict String → Dict String
unassign id [] = []
unassign id ((key, gid) ∷ m) = if str_eq gid id then unassign id m else (key, gid) ∷ unassign id m

unfoldable pub delete_group : String → GroupManager → Bool × GroupManager
delete_group id m = elim (active_only (Dict.get id m.groups)) [
  | none ↦ (false, m)
  | some g ↦ (
    true,
    record m {
      groups = Dict.set id (record g { active = false }) m.groups;
      key_to_group = unassign id m.key_to_group;
    },
  )
]

-- `false` where the group is not found.
unfoldable pub assign_key : String → String → GroupManager → Bool × GroupManager
assign_key key id m = elim (active_only (Dict.get id m.groups)) [
  | none ↦ (false, m)
  | some g ↦ (true, record m { key_to_group = Dict.set key id m.key_to_group })
]

unfoldable pub remove_key : String → GroupManager → Bool × GroupManager
remove_key key m = (
  is_some (Dict.get key m.key_to_group),
  record m { key_to_group = Dict.delete key m.key_to_group },
)

unfoldable pub get_group_by_name : String → Dict KeyGroup → Option KeyGroup
get_group_by_name name [] = none
get_group_by_name name ((id, g) ∷ m) = if is_named name g then some g else get_group_by_name name m

unfoldable pub get_group_members : String → Dict String → List String
get_group_members id [] = []
get_group_members id ((key, gid) ∷ m) =
    if str_eq gid id then key ∷ get_group_members id m else get_group_members id m

unfoldable pub set_all {ℓ} : {V : Type ℓ} → List (String × V) → Dict V → Dict V
set_all [] m = m
set_all ((k, v) ∷ entries) m = set_all entries (Dict.set k v m)

-- `load`, of what `serialize` wrote.
unfoldable pub load : List (String × KeyGroup) → List (String × String) → GroupManager
load groups assignments = record {
  groups = set_all groups [];
  key_to_group = set_all assignments [];
}
