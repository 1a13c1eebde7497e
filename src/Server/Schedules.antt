-- ===== src/Server/Schedules.antt =====
-- src/server.ts: actions that are scheduled on a key, cancelled, and executed by a timer when their
-- time has come.
pub mod Executed
pub mod Rotated
pub mod Queued
pub mod Created
use Prim.Native.String
use paygate_mcp.Base.{
  ℕ, suc, ◌+◌, String, Bool, true, false, not, Option, none, some, List, [], ◌∷◌, ◌++◌, ltb, leb,
  length, filter, if◌then◌else◌,
}
use paygate_mcp.Base.Decimal.{decimal}
use paygate_mcp.Base.Text.{str_eq, given}
use paygate_mcp.Types.{ApiKeyRecord}
use paygate_mcp.Keys.{KeyStore, put, resolve_key_raw}
use paygate_mcp.Server.{
  PayGateServer, ScheduledAction, Action, revoke, suspend, topup, clamp_int, max_credits,
}

-- `sched_${n}`
unfoldable pub schedule_id : ℕ → String
schedule_id n = Prim.Native.String.◌++◌ "sched_" (decimal n)

pub data ScheduleReply : Type 0 where
  missing_key missing_action missing_execute_at invalid_execute_at not_in_future : ScheduleReply
  topup_without_credits key_not_found too_many : ScheduleReply
  scheduled : ScheduledAction → ScheduleReply

-- A top-up of no credits is refused, any other has its credits clamped.
abbrev pub checked_action : Action → Option Action
checked_action revoke = some revoke
checked_action suspend = some suspend
checked_action (topup credits) =
    if ltb 0 credits then some (topup (clamp_int credits 1 max_credits)) else none

abbrev pub actions_on : String → PayGateServer → List ScheduledAction
actions_on key s = filter (λ (a : ScheduledAction). str_eq a.key key) s.scheduled_actions

abbrev pub schedule_for : ApiKeyRecord → Action → ℕ → ℕ → PayGateServer → ScheduledAction
schedule_for r action at now s = record {
  id = schedule_id s.next_schedule_id;
  key = r.key;
  action = action;
  execute_at = at;
  created_at = now;
}

abbrev pub schedule_on :
    Option ApiKeyRecord → Action → ℕ → ℕ → PayGateServer → ScheduleReply × PayGateServer
schedule_on none action at now s = (key_not_found, s)
schedule_on (some r) action at now s =
    if leb 20 (length (actions_on r.key s))
    then (too_many, s)
    else let new = schedule_for r action at now s in
      (
        scheduled new,
        record s {
          scheduled_actions = s.scheduled_actions ++ new ∷ [];
          next_schedule_id = suc s.next_schedule_id;
        },
      )

abbrev pub schedule_checked :
    String → Option Action → ℕ → ℕ → PayGateServer → ScheduleReply × PayGateServer
schedule_checked key none at now s = (topup_without_credits, s)
schedule_checked key (some action) at now s =
    schedule_on (resolve_key_raw key s.store) action at now s

-- `execute_at` is `some none` where the text is no date.
abbrev pub schedule_named :
    Option String
    → Option Action
    → Option (Option ℕ)
    → ℕ
    → PayGateServer
    → ScheduleReply × PayGateServer
schedule_named none action at now s = (missing_key, s)
schedule_named (some key) none at now s = (missing_action, s)
schedule_named (some key) (some action) none now s = (missing_execute_at, s)
schedule_named (some key) (some action) (some none) now s = (invalid_execute_at, s)
schedule_named (some key) (some action) (some (some at)) now s =
    if leb at now then (not_in_future, s) else schedule_checked key (checked_action action) at now s

-- `action` is `none` where it is missing or none of the three.
unfoldable pub handle_create_schedule :
    Option String
    → Option Action
    → Option (Option ℕ)
    → ℕ
    → PayGateServer
    → ScheduleReply × PayGateServer
handle_create_schedule key action execute_at now s =
    schedule_named (given key) action execute_at now s

-- The action of an id and the others; the first one of the id, as `findIndex` finds it.
unfoldable pub find_schedule : String → List ScheduledAction → Option ScheduledAction
find_schedule id [] = none
find_schedule id (a ∷ as') = if str_eq a.id id then some a else find_schedule id as'

unfoldable pub splice_schedule : String → List ScheduledAction → List ScheduledAction
splice_schedule id [] = []
splice_schedule id (a ∷ as') = if str_eq a.id id then as' else a ∷ splice_schedule id as'

pub data CancelReply : Type 0 where
  missing_id schedule_not_found : CancelReply
  cancelled : ScheduledAction → CancelReply

abbrev cancel_found : String → Option ScheduledAction → PayGateServer → CancelReply × PayGateServer
cancel_found id none s = (schedule_not_found, s)
cancel_found id (some a) s =
    (cancelled a, record s { scheduled_actions = splice_schedule id s.scheduled_actions })

abbrev cancel_named : Option String → PayGateServer → CancelReply × PayGateServer
cancel_named none s = (missing_id, s)
cancel_named (some id) s = cancel_found id (find_schedule id s.scheduled_actions) s

unfoldable pub handle_cancel_schedule : Option String → PayGateServer → CancelReply × PayGateServer
handle_cancel_schedule id s = cancel_named (given id) s

-- The record after the action; it is written back where the action changes it.
abbrev pub acted : Action → ApiKeyRecord → Option ApiKeyRecord
acted revoke r = if r.active then some (record r { active = false }) else none
acted suspend r = if not r.suspended then some (record r { suspended = true }) else none
acted (topup credits) r =
    if ltb 0 credits then some (record r { credits = r.credits + credits }) else none

abbrev pub write_back : ApiKeyRecord → Option ApiKeyRecord → KeyStore → KeyStore
write_back r none s = s
write_back r (some r') s = put r.key r' s

abbrev pub act_on : Option ApiKeyRecord → Action → KeyStore → KeyStore
act_on none action s = s
act_on (some r) action s = write_back r (acted action r) s

-- The loop over the actions that are due.
unfoldable pub execute_all : List ScheduledAction → KeyStore → KeyStore
execute_all [] s = s
execute_all (a ∷ as') s = execute_all as' (act_on (resolve_key_raw a.key s) a.action s)

abbrev pub is_due : ℕ → ScheduledAction → Bool
is_due now a = leb a.execute_at now

-- Each action that is due is taken out of the queue, which leaves the others in their order.
unfoldable pub execute_scheduled_actions : ℕ → PayGateServer → PayGateServer
execute_scheduled_actions now s = record s {
  store = execute_all (filter (is_due now) s.scheduled_actions) s.store;
  scheduled_actions = filter (λ (a : ScheduledAction). not (is_due now a)) s.scheduled_actions;
}

-- The actions of a key, or all; `none` where the key is not found.
abbrev schedules_for : Option String → PayGateServer → Option (List ScheduledAction)
schedules_for none s = some s.scheduled_actions
schedules_for (some key) s = elim (resolve_key_raw key s.store) [
  | none ↦ none
  | some r ↦ some (actions_on r.key s)
]

unfoldable pub handle_get_schedules : Option String → PayGateServer → Option (List ScheduledAction)
handle_get_schedules key s = schedules_for (given key) s
