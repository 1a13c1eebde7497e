-- ===== src/Server/Schedules/Queued.antt =====
-- The queue of scheduled actions of src/server.ts: an action that waits in it, and what a revocation
-- that is due leaves.
use paygate_mcp.Base.{
  String, ◌≡◌, ◌≢◌, refl, ◌∙◌, sym, ap, ◌⊎◌, inl, inr, true, false, none, some, Option, List, [],
  ◌∷◌, ◌++◌, arith, All, is_some, filter, if◌then◌else◌, Bool, Bool-cases,
}
use paygate_mcp.Base.Text.{str_eq, str_eq_refl}
use text.Mathlib.TextEquality.{eq_iff}
use paygate_mcp.Types.{ApiKeyRecord}
use paygate_mcp.Server.{ScheduledAction, Action, revoke, suspend, topup}
use paygate_mcp.Server.Schedules.{splice_schedule}
use paygate_mcp.Server.Schedules.Executed.{result, result_on, results}

-- There is a record, and it is revoked.
abbrev pub IsRevoked : Option ApiKeyRecord → Type 0
IsRevoked none = ⊥
IsRevoked (some r) = r.active ≡ false

result_on-IsRevoked :
    (action : Action) (o : Option ApiKeyRecord) → IsRevoked o → IsRevoked (result_on action o)
result_on-IsRevoked revoke (some r) h = refl
result_on-IsRevoked suspend (some r) h = h
result_on-IsRevoked (topup credits) (some r) h = h
result_on-IsRevoked action none h = h

-- No action takes a revocation back.
pub results-IsRevoked :
    (key : String) (as' : List ScheduledAction) (o : Option ApiKeyRecord)
    → IsRevoked o
    → IsRevoked (results key as' o)
unfolding results
results-IsRevoked key [] o h = h
results-IsRevoked key (a ∷ as') o h = elim (Bool-cases (str_eq a.key key)) [
  | inl same ↦
      rw same (results-IsRevoked key as' (result_on a.action o) (result_on-IsRevoked a.action o h))
  | inr other ↦ rw other (results-IsRevoked key as' o h)
]

pub results-there :
    (key : String) (as' : List ScheduledAction) (o : Option ApiKeyRecord)
    → is_some o ≡ true
    → is_some (results key as' o) ≡ true
unfolding results
results-there key [] o h = h
results-there key (a ∷ as') none h = absurd (ground arith)
results-there key (a ∷ as') (some r) h =
    results-there key as' (if str_eq a.key key then some (result a.action r) else some r)
      (ground arith)

-- The action is in the queue.
abbrev pub IsQueued : ScheduledAction → List ScheduledAction → Type 0
IsQueued a [] = ⊥
IsQueued a (b ∷ bs) = (a ≡ b) ⊎ IsQueued a bs

pub IsQueued-append :
    (a : ScheduledAction) (as' bs : List ScheduledAction)
    → IsQueued a as' ⊎ IsQueued a bs
    → IsQueued a (as' ++ bs)
IsQueued-append a [] bs (inl h) = absurd h
IsQueued-append a [] bs (inr h) = h
IsQueued-append a (c ∷ as') bs (inl (inl e)) = inl e
IsQueued-append a (c ∷ as') bs (inl (inr h)) = inr (IsQueued-append a as' bs (inl h))
IsQueued-append a (c ∷ as') bs (inr h) = inr (IsQueued-append a as' bs (inr h))

pub IsQueued-filter :
    (p : ScheduledAction → Bool) (a : ScheduledAction) (as' : List ScheduledAction)
    → p a ≡ true
    → IsQueued a as'
    → IsQueued a (filter p as')
IsQueued-filter p a [] h q = absurd q
IsQueued-filter p a (c ∷ as') h (inl e) = rw (sym (ap p e) ∙ h) (inl e)
IsQueued-filter p a (c ∷ as') h (inr q) = elim (Bool-cases (p c)) [
  | inl e ↦ rw e (inr (IsQueued-filter p a as' h q))
  | inr e ↦ rw e (IsQueued-filter p a as' h q)
]

pub IsQueued-splice :
    (id : String) (a : ScheduledAction) (as' : List ScheduledAction)
    → id ≢ a.id
    → IsQueued a as'
    → IsQueued a (splice_schedule id as')
unfolding splice_schedule
IsQueued-splice id a [] n q = absurd q
IsQueued-splice id a (c ∷ as') n q = elim (Bool-cases (str_eq c.id id)) [
  | inl same ↦ rw same (elim q [
    | inl e ↦
        absurd (n (sym ((eq_iff c.id id).0 same) ∙ ap (λ (x : ScheduledAction). x.id) (sym e)))
    | inr q' ↦ q'
  ])
  | inr other ↦ rw other (elim q [ inl e ↦ inl e | inr q' ↦ inr (IsQueued-splice id a as' n q') ])
]

pub All-splice :
    (P : ScheduledAction → Type 0) (id : String) (as' : List ScheduledAction)
    → All P as'
    → All P (splice_schedule id as')
unfolding splice_schedule
All-splice P id [] h = h
All-splice P id (c ∷ as') h = elim (Bool-cases (str_eq c.id id)) [
  | inl same ↦ rw same h.1
  | inr other ↦ rw other (h.0, All-splice P id as' h.1)
]

pub queued_revokes :
    (a : ScheduledAction) (as' : List ScheduledAction) (o : Option ApiKeyRecord)
    → is_some o ≡ true
    → a.action ≡ revoke
    → IsQueued a as'
    → IsRevoked (results a.key as' o)
unfolding results
queued_revokes a [] o known same q = absurd q
queued_revokes a (b ∷ as') none known same q = absurd (ground arith)
queued_revokes a (b ∷ as') (some r) known same (inl e) =
    let key : b.key ≡ a.key = ap (λ (x : ScheduledAction). x.key) (sym e) in
    let action : b.action ≡ revoke = ap (λ (x : ScheduledAction). x.action) (sym e) ∙ same in
    rw (key, action, str_eq_refl a.key)
      (results-IsRevoked a.key as' (some (record r { active = false })) refl)
queued_revokes a (b ∷ as') (some r) known same (inr q) =
    queued_revokes a as' (if str_eq b.key a.key then some (result b.action r) else some r)
      (ground arith) same q
