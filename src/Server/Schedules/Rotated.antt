-- ===== src/Server/Schedules/Rotated.antt =====
-- Scheduled actions of src/server.ts on a key that is rotated by src/store.ts before they are due.
use text.Mathlib.TextEquality.{eq_iff}
use paygate_mcp.Base.{
  ℕ, String, ◌≡◌, refl, ◌∙◌, true, false, none, some, Option, List, [], ◌∷◌, arith, All, All-map,
  All-filter, is_some, filter, if◌then◌else◌,
}
use paygate_mcp.Base.Dict.{get}
use paygate_mcp.Base.Text.{str_eq}
use paygate_mcp.Types.{ApiKeyRecord}
use paygate_mcp.Keys.{KeyStore, get_key_raw, rotate_key}
use paygate_mcp.Keys.Aliases.{rotate_moves}
use paygate_mcp.Server.{PayGateServer, ScheduledAction}
use paygate_mcp.Server.Keyed.{IsKeyed}
use paygate_mcp.Server.Schedules.{is_due, execute_scheduled_actions}
use paygate_mcp.Server.Schedules.Executed.{AreThere, results, execute-results}

results_other :
    (key : String) (o : Option ApiKeyRecord) (as' : List ScheduledAction)
    → All (λ (a : ScheduledAction). str_eq a.key key ≡ false) as'
    → results key as' o ≡ o
unfolding results
results_other key o [] h = refl
results_other key o (a ∷ as') h = rw h.0 (results_other key o as' h.1)

module _ (old fresh : String) (r : ApiKeyRecord) (s : KeyStore) (keyed : IsKeyed s)
    (found : get_key_raw old s ≡ some r) (live : r.active ≡ true)
    (unused : get_key_raw fresh s ≡ none) where
  abbrev rotated : KeyStore
  rotated = (rotate_key old fresh s).1

  get-rotated :
      (k : String)
      → get_key_raw k rotated ≡ (
          if str_eq fresh k
          then some (record r { key = fresh })
          else if str_eq old k
          then some (record r { active = false })
          else get_key_raw k s)
  get-rotated k =
      let moves = rotate_moves old fresh r s found live unused in
      ground (arith, eq_iff fresh k, eq_iff old k, moves.1, moves.2, moves.3 k)

  rotated-IsKeyed : IsKeyed rotated
  unfolding get_key_raw
  rotated-IsKeyed k r' e =
      ground (arith, get-rotated k, eq_iff fresh k, eq_iff old k, keyed k r', keyed old r found)

  rotated_there : (k : String) → is_some (get k s.keys) ≡ true → is_some (get k rotated.keys) ≡ true
  unfolding get_key_raw
  rotated_there k known = ground (arith, get-rotated k)

-- Let every record stand under its own key, and let the scheduled actions be of keys that are there.
-- When a key that is not revoked is rotated to a new string, the actions that are scheduled on it do
-- not follow: whenever the timer runs after that, the new key has the record of the rotation, not
-- revoked, whatever actions were due.
pub rotate-execute :
    (old fresh : String) (r : ApiKeyRecord) (now : ℕ) (s : PayGateServer)
    → IsKeyed s.store
    → AreThere s.store s.scheduled_actions
    → get_key_raw old s.store ≡ some r
    → r.active ≡ true
    → get_key_raw fresh s.store ≡ none
    → let s' = record s { store = (rotate_key old fresh s.store).1 } in
      get_key_raw fresh (execute_scheduled_actions now s').store ≡ some (record r { key = fresh })
rotate-execute old fresh r now s keyed there found live unused =
    (execute-results now s' fresh (rotated-IsKeyed old fresh r s.store keyed found live unused) (
      All-map (λ (a : ScheduledAction). is_some (get a.key s.store.keys) ≡ true)
        (λ (a : ScheduledAction). is_some (get a.key s'.store.keys) ≡ true) s.scheduled_actions
        (λ a known. rotated_there old fresh r s.store keyed found live unused a.key known) there)).0
    ∙ results_other fresh (get_key_raw fresh s'.store) (filter (is_due now) s.scheduled_actions) (
        All-filter (λ (a : ScheduledAction). str_eq a.key fresh ≡ false) (is_due now)
          s.scheduled_actions
          (All-map (λ (a : ScheduledAction). is_some (get a.key s.store.keys) ≡ true)
            (λ (a : ScheduledAction). str_eq a.key fresh ≡ false) s.scheduled_actions
            (λ a known. not_fresh a.key (unfold get_key_raw in known)) there))
    ∙ (rotate_moves old fresh r s.store found live unused).1
  where
    s' : PayGateServer
    s' = record s { store = (rotate_key old fresh s.store).1 }

    not_fresh : (k : String) → is_some (get_key_raw k s.store) ≡ true → str_eq k fresh ≡ false
    not_fresh k known = ground (arith, eq_iff k fresh)
