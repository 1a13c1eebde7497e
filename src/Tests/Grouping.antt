-- ===== src/Tests/Grouping.antt =====
-- The results on groups, on a group that a key is assigned to.
use paygate_mcp.Base.{String, ◌≡◌, refl, false, none, some, List, [], ◌∷◌}
use paygate_mcp.Base.Dict
use paygate_mcp.Keys.Admin.{trim_left, trim_right}
use paygate_mcp.Ip.{is_space}
use paygate_mcp.Groups.{GroupManager, get_key_group}
use paygate_mcp.Groups.Admin.{
  GroupParams, create_group, assign_key, delete_group, name_taken, unassign, new_group,
}
use paygate_mcp.Groups.Sound.{IsSound}
use paygate_mcp.Groups.Run.{Call, creates, deletes, assigns, call, run, no_groups, run-IsSound}

abbrev readers : GroupParams
readers = record {
  name = " readers ";
  allowed_tools = some ("read" ∷ []);
  denied_tools = some ("write" ∷ []);
  rate_limit_per_min = 5;
  tool_pricing = none;
  quota = none;
  ip_allowlist = none;
  default_credits = 0;
  max_spending_limit = 0;
}

abbrev calls : List Call
calls =
    creates "1" readers ∷ creates "2" readers ∷ assigns "pg_a" "grp_1" ∷ assigns "pg_b" "grp_2" ∷ []

run-IsSound_example :
    let m = run calls no_groups in
    IsSound m
    × ((get_key_group "pg_a" m).1 ≡ m)
    × ((id : String)
        → Dict.get "pg_a" m.key_to_group ≡ some id
        → (get_key_group "pg_a" m).0 ≡ Dict.get id m.groups)
run-IsSound_example = run-IsSound calls "pg_a"

abbrev grouped : GroupManager
grouped = record {
  groups = ("grp_1", new_group "grp_1" "readers" readers) ∷ [];
  key_to_group = ("pg_a", "grp_1") ∷ [];
}

-- The second group of the name is refused, and with it the assignment to it.
second_refused : run calls no_groups ≡ grouped
unfolding run call create_group assign_key name_taken Dict.get Dict.set trim_left trim_right
    is_space
second_refused = refl

deleted : run (deletes "grp_1" ∷ []) grouped ≡ record {
  groups = ("grp_1", record (new_group "grp_1" "readers" readers) { active = false }) ∷ [];
  key_to_group = [];
}
unfolding run call delete_group unassign Dict.get Dict.set
deleted = refl
