-- ===== src/Server/Schedules/Executed.antt =====
-- The timer of src/server.ts against the actions that each key is scheduled for.
use text.Mathlib.TextEquality.{eq_iff}
use paygate_mcp.Base.{
  ℕ, ◌+◌, String, ◌≡◌, refl, ap, ◌∙◌, inl, inr, true, false, not, Option, none, some, List, [], ◌∷◌,
  arith, All, All-map, All-filter, is_some, ltb, filter, if◌then◌else◌, Option-cases,
}
use paygate_mcp.Base.Dict.{get, get-set}
use paygate_mcp.Base.Text.{str_eq}
use paygate_mcp.Types.{ApiKeyRecord}
use paygate_mcp.Keys.{KeyStore, get_key_raw, resolve_key_raw}
use paygate_mcp.Server.{PayGateServer, ScheduledAction, Action, revoke, suspend, topup}
use paygate_mcp.Server.Keyed.{IsKeyed, resolve_key_raw_direct}
use paygate_mcp.Server.Schedules.{
  acted, write_back, act_on, execute_all, is_due, execute_scheduled_actions,
}

-- What an action makes of a record, and what the actions of a list make of the record of a key.
abbrev pub result : Action → ApiKeyRecord → ApiKeyRecord
result revoke r = record r { active = false }
result suspend r = record r { suspended = true }
result (topup credits) r = record r { credits = r.credits + credits }

abbrev pub result_on : Action → Option ApiKeyRecord → Option ApiKeyRecord
result_on action none = none
result_on action (some r) = some (result action r)

unfoldable pub results : String → List ScheduledAction → Option ApiKeyRecord → Option ApiKeyRecord
results key [] found = found
results key (a ∷ as') found =
    results key as' (if str_eq a.key key then result_on a.action found else found)

-- The keys of the actions are there.
abbrev pub AreThere : KeyStore → List ScheduledAction → Type 0
AreThere s = All (λ (a : ScheduledAction). is_some (get a.key s.keys) ≡ true)

write_back-get :
    (action : Action) (r : ApiKeyRecord) (k : String) (s : KeyStore)
    → get r.key s.keys ≡ some r
    → get k (write_back r (acted action r) s).keys
      ≡ (if str_eq r.key k then some (result action r) else get k s.keys)
write_back-get revoke r k s found =
    ground (arith, eq_iff r.key k, get-set r.key k (record r { active = false }) s.keys)
write_back-get suspend r k s found =
    ground (arith, eq_iff r.key k, get-set r.key k (record r { suspended = true }) s.keys)
write_back-get (topup credits) r k s found =
    ground
      (arith, eq_iff r.key k, get-set r.key k (record r { credits = r.credits + credits }) s.keys)

act_on-get :
    (a : ScheduledAction) (k : String) (s : KeyStore)
    → IsKeyed s
    → is_some (get a.key s.keys) ≡ true
    → get k (act_on (resolve_key_raw a.key s) a.action s).keys
      ≡ (if str_eq a.key k then result_on a.action (get k s.keys) else get k s.keys)
act_on-get a k s keyed there = elim (Option-cases (get a.key s.keys)) [
  | inl missing ↦ absurd (ground arith)
  | inr (r, found) ↦
      rw (resolve_key_raw_direct a.key r s found)
        (ground (arith, keyed a.key r found, write_back-get a.action r k s, eq_iff a.key k))
]

result-key : (action : Action) (r : ApiKeyRecord) → (result action r).key ≡ r.key
result-key revoke r = refl
result-key suspend r = refl
result-key (topup credits) r = refl

act_on-IsKeyed :
    (a : ScheduledAction) (s : KeyStore)
    → IsKeyed s
    → is_some (get a.key s.keys) ≡ true
    → IsKeyed (act_on (resolve_key_raw a.key s) a.action s)
act_on-IsKeyed a s keyed there k r e = elim (Option-cases (get k s.keys)) [
  | inl missing ↦ ground (arith, act_on-get a k s keyed there)
  | inr (r', found) ↦
      ground (arith, act_on-get a k s keyed there, keyed k r' found, result-key a.action r')
]

act_on-there :
    (a : ScheduledAction) (k : String) (s : KeyStore)
    → IsKeyed s
    → is_some (get a.key s.keys) ≡ true
    → is_some (get k s.keys) ≡ true
    → is_some (get k (act_on (resolve_key_raw a.key s) a.action s).keys) ≡ true
act_on-there a k s keyed there known = elim (Option-cases (get k s.keys)) [
  | inl missing ↦ ground arith
  | inr (r, found) ↦ ground (arith, act_on-get a k s keyed there)
]

execute_all-get :
    (as' : List ScheduledAction) (k : String) (s : KeyStore)
    → IsKeyed s
    → AreThere s as'
    → get k (execute_all as' s).keys ≡ results k as' (get k s.keys)
unfolding execute_all results
execute_all-get [] k s keyed there = refl
execute_all-get (a ∷ as') k s keyed there =
    execute_all-get as' k s' (act_on-IsKeyed a s keyed there.0) (
      All-map (λ (b : ScheduledAction). is_some (get b.key s.keys) ≡ true)
        (λ (b : ScheduledAction). is_some (get b.key s'.keys) ≡ true) as'
        (λ b known. act_on-there a b.key s keyed there.0 known) there.1)
    ∙ ap (results k as') (act_on-get a k s keyed there.0)
  where
    s' : KeyStore
    s' = act_on (resolve_key_raw a.key s) a.action s

pub execute_all-IsKeyed :
    (as' : List ScheduledAction) (s : KeyStore)
    → IsKeyed s
    → AreThere s as'
    → IsKeyed (execute_all as' s)
unfolding execute_all
execute_all-IsKeyed [] s keyed there = keyed
execute_all-IsKeyed (a ∷ as') s keyed there =
    execute_all-IsKeyed as' s' (act_on-IsKeyed a s keyed there.0) (
      All-map (λ (b : ScheduledAction). is_some (get b.key s.keys) ≡ true)
        (λ (b : ScheduledAction). is_some (get b.key s'.keys) ≡ true) as'
        (λ b known. act_on-there a b.key s keyed there.0 known) there.1)
  where
    s' : KeyStore
    s' = act_on (resolve_key_raw a.key s) a.action s

not_due-filter :
    (now : ℕ) (as' : List ScheduledAction)
    → filter (λ (a : ScheduledAction). not (is_due now a)) as'
      ≡ filter (λ (a : ScheduledAction). ltb now a.execute_at) as'
not_due-filter now [] = refl
not_due-filter now (a ∷ as') = ground (arith, not_due-filter now as')

-- Let every record stand under its own key, and let the scheduled actions be of keys that are there.
-- One run of the timer makes of every key's record what the actions that are due and are scheduled
-- for that key make of it, one after the other in the order of the queue, and of a record without
-- such an action nothing else; the actions that are not due stay in the queue in their order.
pub execute-results :
    (now : ℕ) (s : PayGateServer) (key : String)
    → IsKeyed s.store
    → AreThere s.store s.scheduled_actions
    → let s' = execute_scheduled_actions now s in
      (get_key_raw key s'.store
        ≡ results key (filter (is_due now) s.scheduled_actions) (get_key_raw key s.store))
      × (s'.scheduled_actions
          ≡ filter (λ (a : ScheduledAction). ltb now a.execute_at) s.scheduled_actions)
unfolding execute_scheduled_actions get_key_raw
execute-results now s key keyed there = (
  execute_all-get (filter (is_due now) s.scheduled_actions) key s.store keyed (
      All-filter (λ (a : ScheduledAction). is_some (get a.key s.store.keys) ≡ true) (is_due now)
        s.scheduled_actions there),
  not_due-filter now s.scheduled_actions,
)
