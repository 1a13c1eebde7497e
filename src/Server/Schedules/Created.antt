-- ===== src/Server/Schedules/Created.antt =====
-- A revocation that src/server.ts has accepted for later takes place, whatever other requests for
-- schedules come in between and whenever the timer runs.
use paygate_mcp.Base.{
  ℕ, suc, String, ◌≡◌, ◌≢◌, refl, sym, subst, ◌≤◌, ◌<◌, ◌⊎◌, inl, inr, true, none, some, Option,
  List, [], ◌∷◌, ◌++◌, arith, All, All-append, All-map, All-filter, is_some, not, filter,
  Bool-cases, Option-cases, leb, length,
}
use paygate_mcp.Base.Dict.{get}
use paygate_mcp.Base.Text.{given}
use paygate_mcp.Types.{ApiKeyRecord}
use paygate_mcp.Keys.{get_key_raw, resolve_key_raw}
use paygate_mcp.Server.{PayGateServer, ScheduledAction, Action, revoke}
use paygate_mcp.Server.Keyed.{IsKeyed, resolve_key_raw-found}
use paygate_mcp.Server.Schedules.{
  is_due, execute_scheduled_actions, handle_create_schedule, handle_cancel_schedule, schedule_named,
  schedule_checked, schedule_for, actions_on, checked_action, find_schedule, scheduled,
}
use paygate_mcp.Server.Schedules.Executed.{AreThere, results, execute-results, execute_all-IsKeyed}
use paygate_mcp.Server.Schedules.Queued.{
  IsRevoked, IsQueued, results-IsRevoked, results-there, IsQueued-append, IsQueued-filter,
  IsQueued-splice, All-splice, queued_revokes,
}

-- The requests of an administrator on schedules, and the timer.
pub data Call : Type 0 where
  create : Option String → Option Action → Option (Option ℕ) → Call
  cancel : Option String → Call
  tick : Call

unfoldable pub call : ℕ → Call → PayGateServer → PayGateServer
call now (create key action at) s = (handle_create_schedule key action at now s).1
call now (cancel id) s = (handle_cancel_schedule id s).1
call now tick s = execute_scheduled_actions now s

unfoldable pub run : List (ℕ × Call) → PayGateServer → PayGateServer
run [] s = s
run ((now, c) ∷ cs) s = run cs (call now c s)

-- The call does not cancel the action.
abbrev pub Spares : ScheduledAction → Call → Type 0
Spares a (create key action at) = Unit {0}
Spares a (cancel id) = given id ≢ some a.id
Spares a tick = Unit {0}

abbrev IsThere : PayGateServer → ScheduledAction → Type 0
IsThere s b = is_some (get b.key s.store.keys) ≡ true

-- What a request to create a schedule may leave: the server as it was, or one action more in the
-- queue, of a key that is there.
abbrev Grown : PayGateServer → PayGateServer → Type 0
Grown s s' =
    (s' ≡ s)
    ⊎ ((b : ScheduledAction) × (s'.store ≡ s.store)
        × (s'.scheduled_actions ≡ s.scheduled_actions ++ b ∷ [])
        × IsThere s b)

checked-Grown :
    (key : String) (action : Option Action) (at now : ℕ) (s : PayGateServer)
    → IsKeyed s.store
    → Grown s (schedule_checked key action at now s).1
checked-Grown key none at now s keyed = inl refl
checked-Grown key (some action) at now s keyed = elim (Option-cases (resolve_key_raw key s.store)) [
  | inl unknown ↦ rw unknown (inl refl)
  | inr (r, there) ↦
      let found = resolve_key_raw-found key r s.store keyed there in
      rw there (elim (Bool-cases (leb 20 (length (actions_on r.key s)))) [
        | inl full ↦ rw full (inl refl)
        | inr room ↦ rw room (inr (schedule_for r action at now s, refl, refl, rw found refl))
      ])
]

named-Grown :
    (key : Option String) (action : Option Action) (at : Option (Option ℕ)) (now : ℕ)
    (s : PayGateServer)
    → IsKeyed s.store
    → Grown s (schedule_named key action at now s).1
named-Grown none action at now s keyed = inl refl
named-Grown (some key) none at now s keyed = inl refl
named-Grown (some key) (some action) none now s keyed = inl refl
named-Grown (some key) (some action) (some none) now s keyed = inl refl
named-Grown (some key) (some action) (some (some at)) now s keyed = elim (Bool-cases (leb at now)) [
  | inl past ↦ rw past (inl refl)
  | inr future ↦ rw future (checked-Grown key (checked_action action) at now s keyed)
]

-- The revocation waits in the queue, or its key is revoked.
record IsPending (a : ScheduledAction) (s : PayGateServer) : Type 0 where
  keyed : IsKeyed s.store
  owned : AreThere s.store s.scheduled_actions
  known : IsThere s a
  held : IsQueued a s.scheduled_actions ⊎ IsRevoked (get a.key s.store.keys)

create-IsPending :
    (a : ScheduledAction) (s s' : PayGateServer) → Grown s s' → IsPending a s → IsPending a s'
create-IsPending a s s' (inl same) h = subst (IsPending a) (sym same) h
create-IsPending a s s' (inr (b, store, queue, known)) h = record {
  keyed = rw store h.keyed;
  owned =
      rw (store, queue) (All-append (IsThere s) s.scheduled_actions (b ∷ []) h.owned (known, tt));
  known = rw store h.known;
  held =
      rw (store, queue)
        (elim h.held [
          | inl q ↦ inl (IsQueued-append a s.scheduled_actions (b ∷ []) (inl q))
          | inr r ↦ inr r
        ]);
}

cancel-IsPending :
    (id : Option String) (a : ScheduledAction) (s : PayGateServer)
    → given id ≢ some a.id
    → IsPending a s
    → IsPending a (handle_cancel_schedule id s).1
unfolding handle_cancel_schedule
cancel-IsPending id a s n h = elim (Option-cases (given id)) [
  | inl missing ↦ rw missing h
  | inr (text, e) ↦ rw e (elim (Option-cases (find_schedule text s.scheduled_actions)) [
    | inl unknown ↦ rw unknown h
    | inr (b, there) ↦ rw there (record {
      keyed = h.keyed;
      owned = All-splice (IsThere s) text s.scheduled_actions h.owned;
      known = h.known;
      held = elim h.held [
        | inl q ↦ inl (IsQueued-splice text a s.scheduled_actions (λ same. n (rw (e, same) refl)) q)
        | inr r ↦ inr r
      ];
    })
  ])
]

-- What a run of the timer makes of the revocation.
module _ (now : ℕ) (a : ScheduledAction) (s : PayGateServer) (revokes : a.action ≡ revoke)
    (h : IsPending a s) where
  abbrev due : List ScheduledAction
  due = filter (is_due now) s.scheduled_actions

  after :
      (k : String)
      → get k (execute_scheduled_actions now s).store.keys ≡ results k due (get k s.store.keys)
  unfolding get_key_raw
  after k = (execute-results now s k h.keyed h.owned).0

  tick-IsThere : (b : ScheduledAction) → IsThere s b → IsThere (execute_scheduled_actions now s) b
  tick-IsThere b known = rw (after b.key) (results-there b.key due (get b.key s.store.keys) known)

  tick-IsRevoked :
      is_due now a ≡ true ⊎ IsRevoked (get a.key s.store.keys)
      → IsRevoked (get a.key (execute_scheduled_actions now s).store.keys)
  tick-IsRevoked (inr r) = rw (after a.key) (results-IsRevoked a.key due (get a.key s.store.keys) r)
  tick-IsRevoked (inl ready) = elim h.held [
    | inl q ↦ rw (after a.key) (
        queued_revokes a due (get a.key s.store.keys) h.known revokes
          (IsQueued-filter (is_due now) a s.scheduled_actions ready q))
    | inr r ↦ rw (after a.key) (results-IsRevoked a.key due (get a.key s.store.keys) r)
  ]

  tick-IsPending : IsPending a (execute_scheduled_actions now s)
  unfolding execute_scheduled_actions
  tick-IsPending = record {
    keyed =
        execute_all-IsKeyed due s.store h.keyed
          (All-filter (IsThere s) (is_due now) s.scheduled_actions h.owned);
    owned =
        All-filter (IsThere (execute_scheduled_actions now s))
          (λ (b : ScheduledAction). not (is_due now b)) s.scheduled_actions
          (All-map (IsThere s) (IsThere (execute_scheduled_actions now s)) s.scheduled_actions
            tick-IsThere h.owned);
    known = tick-IsThere a h.known;
    held = elim (Bool-cases (is_due now a)) [
      | inl ready ↦ inr (tick-IsRevoked (inl ready))
      | inr early ↦ elim h.held [
        | inl q ↦ inl (
            IsQueued-filter (λ (b : ScheduledAction). not (is_due now b)) a s.scheduled_actions
              (rw early refl) q)
        | inr r ↦ inr (tick-IsRevoked (inr r))
      ]
    ];
  }

call-IsPending :
    (now : ℕ) (c : Call) (a : ScheduledAction) (s : PayGateServer)
    → a.action ≡ revoke
    → Spares a c
    → IsPending a s
    → IsPending a (call now c s)
unfolding call
call-IsPending now (create key action at) a s revokes spared h =
    create-IsPending a s (handle_create_schedule key action at now s).1
      (unfold handle_create_schedule in named-Grown (given key) action at now s h.keyed) h
call-IsPending now (cancel id) a s revokes spared h = cancel-IsPending id a s spared h
call-IsPending now tick a s revokes spared h = tick-IsPending now a s revokes h

run-IsPending :
    (cs : List (ℕ × Call)) (a : ScheduledAction) (s : PayGateServer)
    → a.action ≡ revoke
    → All (λ (c : ℕ × Call). Spares a c.1) cs
    → IsPending a s
    → IsPending a (run cs s)
unfolding run
run-IsPending [] a s revokes spared h = h
run-IsPending ((now, c) ∷ cs) a s revokes spared h =
    run-IsPending cs a (call now c s) revokes spared.1 (call-IsPending now c a s revokes spared.0 h)

-- A request for a revocation that is accepted: of which key, and that it waits.
created :
    (name : Option String) (at now : ℕ) (a : ScheduledAction) (s : PayGateServer)
    → IsKeyed s.store
    → AreThere s.store s.scheduled_actions
    → let (reply, s') = handle_create_schedule name (some revoke) (some (some at)) now s in
      reply ≡ scheduled a
      → (a.action ≡ revoke)
        × (a.execute_at ≡ at)
        × (now < at)
        × ((text : String) × (r : ApiKeyRecord) × (given name ≡ some text)
            × (resolve_key_raw text s.store ≡ some r)
            × (r.key ≡ a.key))
        × IsPending a s'
unfolding handle_create_schedule
created name at now a s keyed there e = elim (Option-cases (given name)) [
  | inl no_name ↦ absurd (ground arith)
  | inr (text, named) ↦ elim (Option-cases (resolve_key_raw text s.store)) [
    | inl unknown ↦ absurd (ground arith)
    | inr (r, is_there) ↦
        let found = resolve_key_raw-found text r s.store keyed is_there in
        let grown : (handle_create_schedule name (some revoke) (some (some at)) now s).1 ≡ queued =
          ground arith in
        let known : IsThere s a = ground arith in
        (
          ground arith,
          ground arith,
          ground arith,
          (text, r, named, is_there, ground arith),
          subst (IsPending a) (sym grown) (record {
            keyed = keyed;
            owned = All-append (IsThere s) s.scheduled_actions (a ∷ []) there (known, tt);
            known = known;
            held = inl (IsQueued-append a s.scheduled_actions (a ∷ []) (inr (inl refl)));
          }),
        )
  ]
]
  where
    queued : PayGateServer
    queued = record s {
      scheduled_actions = s.scheduled_actions ++ a ∷ [];
      next_schedule_id = suc s.next_schedule_id;
    }

-- Let every record stand under its own key, and let the scheduled actions be of keys that are there.
-- When a request to revoke a key at a time is accepted, that time is later than the request and the
-- name given is of a key, by its string or an alias. Let then any requests to schedule and to cancel
-- come, and the timer run, at any times and in any order, without a request that cancels this action.
-- The next run of the timer at that time or after it leaves a record of that key, which is revoked,
-- whatever else is due or was done.
pub create-execute :
    (name : Option String) (at now later : ℕ) (a : ScheduledAction) (cs : List (ℕ × Call))
    (s : PayGateServer)
    → IsKeyed s.store
    → AreThere s.store s.scheduled_actions
    → (handle_create_schedule name (some revoke) (some (some at)) now s).0 ≡ scheduled a
    → All (λ (c : ℕ × Call). Spares a c.1) cs
    → at ≤ later
    → let s' = run cs (handle_create_schedule name (some revoke) (some (some at)) now s).1 in
      (now < at)
      × ((text : String) × (r : ApiKeyRecord) × (given name ≡ some text)
          × (resolve_key_raw text s.store ≡ some r)
          × IsRevoked (get_key_raw r.key (execute_scheduled_actions later s').store))
unfolding get_key_raw
create-execute name at now later a cs s keyed there e spared le =
    let (revokes, time, future, (text, r, named, is_there, same), pending) =
      created name at now a s keyed there e in
    (
      future,
      (
        text,
        r,
        named,
        is_there,
        rw same (
            tick-IsRevoked later a
              (run cs (handle_create_schedule name (some revoke) (some (some at)) now s).1) revokes
              (run-IsPending cs a
                (handle_create_schedule name (some revoke) (some (some at)) now s).1 revokes spared
                pending)
              (inl (ground arith))),
      ),
    )
