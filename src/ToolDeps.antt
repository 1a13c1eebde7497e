-- ===== src/ToolDeps.antt =====
-- src/tool-deps.ts: which tools must succeed before a tool, and what each workflow has run. A method
-- reads the clock once; the random id that `startWorkflow` answers is not used here.
pub mod Search
pub mod Reach
pub mod Reversed
pub mod Checks
pub mod Sort
use paygate_mcp.Base.{
  ℕ, zero, suc, ◌+◌, ◌-◌, String, Bool, true, false, not, ◌&&◌, ◌||◌, Option, none, some, List, [],
  ◌∷◌, ◌++◌, ltb, leb, ◌==◌, length, is_nonempty, filter, map, or_else, max, if◌then◌else◌,
}
use paygate_mcp.Base.Dict
use paygate_mcp.Base.Dict.{Dict}
use paygate_mcp.Base.Text.{includes, str_eq, given, text_length}

pub record ToolDep : Type 0 where
  pub tool : String
  pub depends_on : List String
  pub hard_dependency : Bool
  pub group : Option String
  pub created_at : ℕ

pub data Status : Type 0 where
  success failure : Status

pub record ExecutionRecord : Type 0 where
  pub tool : String
  pub status : Status
  pub timestamp : ℕ
  pub workflow_id : String

pub record DepGraphConfig : Type 0 where
  pub enabled : Bool
  pub max_tools : ℕ
  pub max_workflows : ℕ
  pub workflow_expiry_ms : ℕ

pub record ToolDependencyGraph : Type 0 where
  pub config : DepGraphConfig
  pub deps : Dict ToolDep
  pub workflows : Dict (List ExecutionRecord)
  pub checks_performed : ℕ
  pub checks_blocked : ℕ
  pub failure_propagations : ℕ
  pub cycles_detected : ℕ

-- `[...new Set(names)]`: the first of equal names stays.
unfoldable pub add_names : List String → List String → List String
add_names [] found = found
add_names (x ∷ xs) found = add_names xs (if includes x found then found else found ++ x ∷ [])

pub data RegisterError : Type 0 where
  bad_name max_tools_reached : RegisterError

pub data Registered : Type 0 where
  registered : ToolDep → Registered
  refused : RegisterError → Registered

abbrev pub is_registered : String → Dict ToolDep → Bool
is_registered tool deps = elim (Dict.get tool deps) [ none ↦ false | some d ↦ true ]

unfoldable pub register :
    String
    → List String
    → Option Bool
    → Option String
    → ℕ
    → ToolDependencyGraph
    → Registered × ToolDependencyGraph
register tool depends_on hard group now g =
    let dep : ToolDep = record {
      tool = tool;
      depends_on = add_names depends_on [];
      hard_dependency = or_else hard true;
      group = group;
      created_at = now;
    } in
    if text_length tool == 0 || ltb 256 (text_length tool)
    then (refused bad_name, g)
    else if leb g.config.max_tools (length g.deps) && not (is_registered tool g.deps)
    then (refused max_tools_reached, g)
    else (registered dep, record g { deps = Dict.set tool dep g.deps })

unfoldable pub forget : String → Dict ToolDep → Dict ToolDep
forget tool [] = []
forget tool ((k, d) ∷ deps) =
    (k, record d { depends_on = filter (λ x. not (str_eq x tool)) d.depends_on }) ∷ forget tool deps

unfoldable pub unregister : String → ToolDependencyGraph → Bool × ToolDependencyGraph
unregister tool g =
    (is_registered tool g.deps, record g { deps = forget tool (Dict.delete tool g.deps) })

pub data BlockReason : Type 0 where
  dependency_failed dependency_unsatisfied : BlockReason

pub record DepCheckResult : Type 0 where
  pub allowed : Bool
  pub unsatisfied : List String
  pub failed : List String
  pub reason : Option BlockReason

abbrev pub is_success : Status → Bool
is_success success = true
is_success failure = false

-- The tools with a record of success, or of failure, in a workflow.
unfoldable pub tools_with : Bool → List ExecutionRecord → List String
tools_with good [] = []
tools_with good (r ∷ rs) =
    if (if good then is_success r.status else not (is_success r.status))
    then r.tool ∷ tools_with good rs
    else tools_with good rs

abbrev pub passed : DepCheckResult
passed = record { allowed = true; unsatisfied = []; failed = []; reason = none }

-- The names of `required` that failed, and those that have neither failed nor succeeded.
abbrev pub failed_of : List String → List String → List String
failed_of bad required = filter (λ x. includes x bad) required

abbrev pub unsatisfied_of : List String → List String → List String → List String
unsatisfied_of good bad required =
    filter (λ x. not (includes x bad) && not (includes x good)) required

abbrev pub judge : Bool → List String → List String → DepCheckResult
judge hard unsatisfied failed =
    if hard && (is_nonempty failed || is_nonempty unsatisfied)
    then record {
      allowed = false;
      unsatisfied = unsatisfied;
      failed = failed;
      reason = some (if is_nonempty failed then dependency_failed else dependency_unsatisfied);
    }
    else if not hard && is_nonempty unsatisfied
    then record {
      allowed = false;
      unsatisfied = unsatisfied;
      failed = failed;
      reason = some dependency_unsatisfied;
    }
    else record { allowed = true; unsatisfied = []; failed = failed; reason = none }

abbrev pub judge_tool : List ExecutionRecord → Option ToolDep → DepCheckResult
judge_tool records none = passed
judge_tool records (some dep) =
    let good = tools_with true records in
    let bad = tools_with false records in
    if is_nonempty dep.depends_on
    then judge dep.hard_dependency (unsatisfied_of good bad dep.depends_on)
        (failed_of bad dep.depends_on)
    else passed

-- The counters of a check that blocks.
abbrev count_block : DepCheckResult → Bool → ToolDependencyGraph → ToolDependencyGraph
count_block result hard g = if result.allowed then g else record g {
  checks_blocked = g.checks_blocked + 1;
  failure_propagations =
      g.failure_propagations + (if hard && is_nonempty result.failed then 1 else 0);
}

abbrev is_hard : Option ToolDep → Bool
is_hard none = false
is_hard (some d) = d.hard_dependency

unfoldable pub check : String → String → ToolDependencyGraph → DepCheckResult × ToolDependencyGraph
check tool workflow g =
    let g1 : ToolDependencyGraph = record g { checks_performed = g.checks_performed + 1 } in
    let records = or_else (Dict.get workflow g.workflows) [] in
    let result = judge_tool records (Dict.get tool g.deps) in
    if g.config.enabled
    then (result, count_block result (is_hard (Dict.get tool g.deps)) g1)
    else (passed, g1)

abbrev latest_before : ℕ → List ExecutionRecord → Bool
latest_before cutoff [] = false
latest_before cutoff (r ∷ []) = ltb r.timestamp cutoff
latest_before cutoff (r ∷ r' ∷ rs) = latest_before cutoff (r' ∷ rs)

unfoldable pub prune : ℕ → Dict (List ExecutionRecord) → Dict (List ExecutionRecord)
prune cutoff [] = []
prune cutoff ((id, rs) ∷ workflows) =
    if latest_before cutoff rs then prune cutoff workflows else (id, rs) ∷ prune cutoff workflows

-- The first workflow of the map goes, unless its id is the empty text.
abbrev evict_oldest : Dict (List ExecutionRecord) → Dict (List ExecutionRecord)
evict_oldest [] = []
evict_oldest ((id, rs) ∷ workflows) = elim (given (some id)) [
  | none ↦ (id, rs) ∷ workflows
  | some id' ↦ Dict.delete id ((id, rs) ∷ workflows)
]

abbrev make_room : ℕ → Dict (List ExecutionRecord) → Dict (List ExecutionRecord)
make_room most ws = if leb most (length ws) then evict_oldest ws else ws

unfoldable pub record_execution :
    String → String → Status → ℕ → ToolDependencyGraph → ToolDependencyGraph
record_execution tool workflow status now g =
    let ws = prune (now - g.config.workflow_expiry_ms) g.workflows in
    let entry : ExecutionRecord = record {
      tool = tool;
      status = status;
      timestamp = now;
      workflow_id = workflow;
    } in
    elim (Dict.get workflow ws) [
      | some rs ↦ record g { workflows = Dict.set workflow (rs ++ entry ∷ []) ws }
      | none ↦ record g {
        workflows = Dict.set workflow (entry ∷ []) (make_room g.config.max_workflows ws);
      }
    ]

abbrev push_unless : Bool → String → List String → List String
push_unless b x xs = if b then xs else xs ++ x ∷ []

-- One pass of the loop over the neighbours of a tool: those that are new go to the set and the queue.
unfoldable pub visit : List String → List String → List String → List String × List String
visit [] found queue = (found, queue)
visit (x ∷ xs) found queue =
    let known = includes x found in visit xs (push_unless known x found) (push_unless known x queue)

-- The loop `while (queue.length > 0)`, with fuel: none where the fuel does not last.
unfoldable pub search :
    (String → List String) → ℕ → List String → List String → Option (List String)
search next fuel [] found = some found
search next zero (current ∷ queue) found = none
search next (suc fuel) (current ∷ queue) found =
    let (found', queue') = visit (next current) found queue in search next fuel queue' found'

unfoldable pub depends_on : Dict ToolDep → String → List String
depends_on deps tool = elim (Dict.get tool deps) [ none ↦ [] | some d ↦ d.depends_on ]

-- The tools whose entries name `tool`, in the order of the map.
unfoldable pub dependents_of : Dict ToolDep → String → List String
dependents_of [] tool = []
dependents_of ((k, d) ∷ deps) tool =
    let rest = dependents_of deps tool in if includes tool d.depends_on then d.tool ∷ rest else rest

-- The number of edges.
unfoldable pub total_edges : Dict ToolDep → ℕ
total_edges [] = 0
total_edges ((k, d) ∷ deps) = length d.depends_on + total_edges deps

unfoldable pub get_prerequisites : String → ToolDependencyGraph → Option (List String)
get_prerequisites tool g = search (depends_on g.deps) (suc (total_edges g.deps)) (tool ∷ []) []

unfoldable pub get_dependents : String → ToolDependencyGraph → Option (List String)
get_dependents tool g = search (dependents_of g.deps) (suc (length g.deps)) (tool ∷ []) []

-- The parts of the configuration that an update gives.
abbrev floor_or : ℕ → Option ℕ → ℕ → ℕ
floor_or low none old = old
floor_or low (some n) old = max low n

unfoldable pub configure :
    Option Bool → Option ℕ → Option ℕ → Option ℕ → ToolDependencyGraph → ToolDependencyGraph
configure enabled tools workflows expiry g = record g {
  config = record {
    enabled = or_else enabled g.config.enabled;
    max_tools = floor_or 1 tools g.config.max_tools;
    max_workflows = floor_or 1 workflows g.config.max_workflows;
    workflow_expiry_ms = floor_or 1000 expiry g.config.workflow_expiry_ms;
  };
}

unfoldable pub clear : ToolDependencyGraph → ToolDependencyGraph
clear g = record g {
  deps = [];
  workflows = [];
  checks_performed = 0;
  checks_blocked = 0;
  failure_propagations = 0;
  cycles_detected = 0;
}
