-- ===== src/Tests/Admin.antt =====
-- The results on the handlers of the administration and on the credit ledger.
use text.Mathlib.TextEquality.{eq_iff}
use paygate_mcp.Base.{
  ℕ, String, ◌+◌, ◌-◌, ◌<◌, ◌≡◌, ◌≢◌, refl, true, none, some, List, [], ◌∷◌, arith, length, take,
  min, filter, ltb,
}
use paygate_mcp.Base.Dict
use paygate_mcp.Base.Dict.{sum_by}
use paygate_mcp.Base.Text.{given}
use paygate_mcp.Types.{ApiKeyRecord}
use paygate_mcp.Base.Decimal.{decimal}
use paygate_mcp.Keys.{get_key, get_key_raw, resolve_key_raw, rotate_key, deduct_credits, deducted}
use paygate_mcp.Ledger
use paygate_mcp.Ledger.{
  EntryType, topup, deduction, CreditEntry, get_history, count, limited, since_time, of_type,
}
use paygate_mcp.Ledger.Refinement.{Log, note, wipe, log_all, get_history-log}
use paygate_mcp.Server.{PayGateServer, Reservation, ScheduledAction, Action}
use paygate_mcp.Server.Keyed.{IsKeyed, all_credits}
use paygate_mcp.Server.Transfers.{handle_credit_transfer}
use paygate_mcp.Server.Transfers.Exact.{Outcome, handle_credit_transfer-Outcome}
use paygate_mcp.Server.Reservations.{get_held_credits, handle_commit_reservation, committed}
use paygate_mcp.Server.Reservations.Covered.{IsCovered}
use paygate_mcp.Server.Reservations.Run.{
  Call, reserve, commit, release, list_held, top_up, run, run-IsCovered,
}
use paygate_mcp.Server.Reservations.Spent.{deduct_credits-commit}
use paygate_mcp.Server.Schedules.{
  is_due, execute_scheduled_actions, handle_create_schedule, scheduled, schedule_id,
}
use paygate_mcp.Server.Schedules.Executed.{AreThere, results, execute-results}
use paygate_mcp.Server.Schedules.Rotated.{rotate-execute}
use paygate_mcp.Server.Schedules
use paygate_mcp.Server.Schedules.Queued.{IsRevoked}
use paygate_mcp.Server.Schedules.Created.{create, cancel, tick, create-execute}
use paygate_mcp.Tests.{noon, alice, store}

abbrev server : PayGateServer
server = record {
  store = store;
  credit_ledger = record { entries = []; max_entries_per_key = 2 };
  scheduled_actions = [];
  next_schedule_id = 1;
  credit_reservations = [];
  next_reservation_id = 1;
}

store-IsKeyed : IsKeyed store
unfolding Dict.get
store-IsKeyed k r e = ground (arith, eq_iff "pg_a" k, eq_iff "pg_b" k)

abbrev entry : EntryType → ℕ → CreditEntry
entry type amount = record {
  timestamp = noon;
  type = type;
  amount = amount;
  balance_before = 0;
  balance_after = amount;
}

empty_log : Log
empty_log key = []

abbrev records : List Ledger.Refinement.Call
records =
    note "pg_a" (entry topup 5)
    ∷ note "pg_b" (entry topup 1)
    ∷ note "pg_a" (entry deduction 2)
    ∷ wipe "pg_b"
    ∷ note "pg_a" (entry deduction 3)
    ∷ []

get_history-log_example :
    let l = server.credit_ledger in
    let newest = take 2 (log_all records empty_log "pg_a") in
    (get_history "pg_a" (some deduction) none (some 1) (Ledger.Refinement.run records l)
      ≡ limited (some 1) (since_time none (of_type (some deduction) newest)))
    × (count "pg_a" (Ledger.Refinement.run records l)
        ≡ min 2 (length (log_all records empty_log "pg_a")))
unfolding Dict.get empty_log
get_history-log_example =
    get_history-log records server.credit_ledger empty_log (λ key. refl) "pg_a" (some deduction)
      none (some 1)

handle_credit_transfer-Outcome_example :
    let (reply, s') = handle_credit_transfer (some "main") (some "pg_b") 5 noon server in
    Outcome (some "main") (some "pg_b") 5 noon server s' reply
handle_credit_transfer-Outcome_example =
    handle_credit_transfer-Outcome (some "main") (some "pg_b") 5 noon server store-IsKeyed

server-IsCovered : IsCovered server
unfolding get_held_credits sum_by Dict.get
server-IsCovered = record {
  keyed = store-IsKeyed;
  covered = λ k r e. omega arith;
  owned = tt;
  fresh = λ n le. refl;
}

abbrev held_calls : List (ℕ × Call)
held_calls =
    (noon, reserve (some "main") 9 none)
    ∷ (noon, reserve (some "pg_a") 9 none)
    ∷ (noon + 5, top_up (some "pg_a") 2)
    ∷ (noon + 5, list_held none)
    ∷ (noon + 9, commit (some "rsv_1"))
    ∷ (noon + 9, release (some "rsv_1"))
    ∷ []

run-IsCovered_example :
    let (taken, added, s') = run held_calls server in
    IsCovered s' × (all_credits s'.store + taken ≡ all_credits server.store + added)
run-IsCovered_example = run-IsCovered held_calls server server-IsCovered

abbrev hold : Reservation
hold = record {
  id = "rsv_1";
  key = "pg_a";
  credits = 8;
  created_at = noon;
  expires_at = noon + 300000;
}

abbrev holding : PayGateServer
holding = record server { credit_reservations = ("rsv_1", hold) ∷ []; next_reservation_id = 2 }

hold_found :
    (given (some "rsv_1") ≡ some "rsv_1")
    × (Dict.get "rsv_1" holding.credit_reservations ≡ some hold)
    × (get_key "pg_a" noon holding.store ≡ some alice)
unfolding given Dict.get get_key
hold_found = (refl, refl, refl)

deduct_credits-commit_example :
    let (charged, store') = deduct_credits "pg_a" 6 noon store in
    let (reply, s') =
      handle_commit_reservation (some "rsv_1") noon (record holding { store = store' }) in
    (charged ≡ true)
    × (get_key_raw "pg_a" store' ≡ some (deducted 6 noon alice))
    × (12 - 6 < 8)
    × (reply ≡ committed hold 0)
    × (get_key_raw "pg_a" s'.store ≡ some (record (deducted 6 noon alice) { credits = 0 }))
deduct_credits-commit_example =
    deduct_credits-commit "rsv_1" hold alice 6 noon holding store-IsKeyed hold_found.0 hold_found.1
      refl hold_found.2 (omega arith) (omega arith)

abbrev later : ScheduledAction
later = record {
  id = "sched_1";
  key = "pg_a";
  action = Action.revoke;
  execute_at = noon + 60000;
  created_at = noon;
}

abbrev planned : PayGateServer
planned = record server {
  scheduled_actions =
      later
      ∷ record later { id = "sched_2"; action = Action.topup 7; execute_at = noon + 9000000 }
      ∷ [];
  next_schedule_id = 3;
}

planned-AreThere : AreThere planned.store planned.scheduled_actions
unfolding Dict.get
planned-AreThere = (refl, (refl, tt))

execute-results_example :
    let s' = execute_scheduled_actions (noon + 60000) planned in
    (get_key_raw "pg_a" s'.store
      ≡ results "pg_a"
          (filter (is_due (noon + 60000)) planned.scheduled_actions)
          (get_key_raw "pg_a" planned.store))
    × (s'.scheduled_actions
        ≡ filter
            (λ (a : ScheduledAction). ltb (noon + 60000) a.execute_at)
            planned.scheduled_actions)
execute-results_example =
    execute-results (noon + 60000) planned "pg_a" store-IsKeyed planned-AreThere

alice_there : (get_key_raw "pg_a" store ≡ some alice) × (get_key_raw "pg_c" store ≡ none)
unfolding get_key_raw Dict.get
alice_there = (refl, refl)

rotate-execute_example :
    let s' = record planned { store = (rotate_key "pg_a" "pg_c" store).1 } in
    get_key_raw "pg_c" (execute_scheduled_actions (noon + 60000) s').store
    ≡ some (record alice { key = "pg_c" })
rotate-execute_example =
    rotate-execute "pg_a" "pg_c" alice (noon + 60000) planned store-IsKeyed planned-AreThere
      alice_there.0 refl alice_there.1

accepted :
    (handle_create_schedule
      (some "main")
      (some Action.revoke)
      (some (some (noon + 60000)))
      noon
      server).0
    ≡ scheduled later
unfolding handle_create_schedule given resolve_key_raw get_key_raw Dict.get schedule_id decimal
accepted = refl

abbrev between : List (ℕ × Schedules.Created.Call)
between =
    (noon + 5, create (some "pg_a") (some (Action.topup 3)) (some (some (noon + 20))))
    ∷ (noon + 9, cancel (some "sched_2"))
    ∷ (noon + 30000, tick)
    ∷ (noon + 40000, create (some "pg_b") (some Action.suspend) (some (some (noon + 50000))))
    ∷ []

spared : given (some "sched_2") ≢ some "sched_1"
unfolding given
spared e = ground (arith, eq_iff "sched_2" "sched_1")

create-execute_example :
    let s' =
      Schedules.Created.run between
        (handle_create_schedule
          (some "main")
          (some Action.revoke)
          (some (some (noon + 60000)))
          noon
          server).1 in
    (noon < noon + 60000)
    × ((text : String) × (r : ApiKeyRecord) × (given (some "main") ≡ some text)
        × (resolve_key_raw text store ≡ some r)
        × IsRevoked (get_key_raw r.key (execute_scheduled_actions (noon + 70000) s').store))
create-execute_example =
    create-execute (some "main") (noon + 60000) noon (noon + 70000) later between server
      store-IsKeyed tt accepted (tt, (spared, (tt, (tt, tt)))) (omega arith)
