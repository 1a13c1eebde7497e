-- ===== src/Server/Reservations/Run.antt =====
-- Sequences of calls of the reservation handlers and of the top-up handler in src/server.ts.
use paygate_mcp.Base.{
  ℕ, ◌+◌, String, ◌≡◌, refl, inl, inr, Option, List, [], ◌∷◌, arith, ltb, Option-cases, if_both,
}
use paygate_mcp.Base.Dict.{get}
use paygate_mcp.Base.Text.{given}
use paygate_mcp.Keys.{resolve_key_raw}
use paygate_mcp.Server.{PayGateServer}
use paygate_mcp.Server.Transfers.{handle_top_up}
use paygate_mcp.Server.Reservations.{
  ReserveReply, handle_create_reservation, handle_commit_reservation, handle_release_reservation,
  handle_list_reservations,
}
use paygate_mcp.Server.Keyed.{all_credits, resolve_key_raw-found}
use paygate_mcp.Server.Reservations.Covered.{
  IsCovered, cleanup-IsCovered, drop_reservation-IsCovered,
}
use paygate_mcp.Server.Reservations.Kept.{
  taken_by, added_by, Kept, reserve_key-Kept, commit_found-Kept, top_up-Kept,
}

pub data Call : Type 0 where
  reserve : Option String → ℕ → Option ℕ → Call
  commit release list_held : Option String → Call
  top_up : Option String → ℕ → Call

-- The credits taken, those added, and the server after the call.
unfoldable pub call : ℕ → Call → PayGateServer → ℕ × ℕ × PayGateServer
call now (reserve key credits ttl) s = (0, 0, (handle_create_reservation key credits ttl now s).1)
call now (commit id) s =
    let (reply, s') = handle_commit_reservation id now s in (taken_by reply, 0, s')
call now (release id) s = (0, 0, (handle_release_reservation id s).1)
call now (list_held key) s = (0, 0, (handle_list_reservations key now s).1)
call now (top_up key credits) s =
    let (reply, s') = handle_top_up key credits now s in (0, added_by reply, s')

unfoldable pub run : List (ℕ × Call) → PayGateServer → ℕ × ℕ × PayGateServer
run [] s = (0, 0, s)
run ((now, c) ∷ cs) s =
    let (taken, added, s') = call now c s in
    let (more_taken, more_added, s'') = run cs s' in (taken + more_taken, added + more_added, s'')

call-Kept :
    (now : ℕ) (c : Call) (s : PayGateServer)
    → IsCovered s
    → let (taken, added, s') = call now c s in Kept s taken added s'
unfolding call
call-Kept now (reserve key credits ttl) s h =
    unfold handle_create_reservation in
    elim (Option-cases (given key)) [
      | inl missing ↦ rw missing (h, refl)
      | inr (name, e) ↦ rw e (
          if_both (λ (p : ReserveReply × PayGateServer). Kept s 0 0 p.1) (ltb 0 credits) _ _
            (reserve_key-Kept (resolve_key_raw name s.store) credits ttl now s h
              (λ r found. resolve_key_raw-found name r s.store h.keyed found))
            (h, refl))
    ]
call-Kept now (commit id) s h =
    unfold handle_commit_reservation in
    elim (Option-cases (given id)) [
      | inl missing ↦ rw missing (h, refl)
      | inr (text, e) ↦ rw e (commit_found-Kept text now s h)
    ]
call-Kept now (release id) s h =
    unfold handle_release_reservation in
    elim (Option-cases (given id)) [
      | inl missing ↦ rw missing (h, refl)
      | inr (text, e) ↦ rw e (elim (Option-cases (get text s.credit_reservations)) [
        | inl unknown ↦ rw unknown (h, refl)
        | inr (r, there) ↦ rw there (drop_reservation-IsCovered text s h, refl)
      ])
    ]
call-Kept now (list_held key) s h =
    unfold handle_list_reservations in (cleanup-IsCovered now s h, refl)
call-Kept now (top_up key credits) s h = top_up-Kept key credits now s h

-- Credits that are held are there to be taken. Let no key have more held than it has, the holds be of keys that are there,
-- every record stand under its own key and the ids to come be unused. Then after any calls, at any
-- times, that reserve, commit, release and list reservations and top keys up, whether they succeed or fail, the same holds, and the credits of
-- all keys together are those at the start plus what the top-ups added less the whole amounts of the
-- committed reservations: a commit never falls short.
pub run-IsCovered :
    (cs : List (ℕ × Call)) (s : PayGateServer)
    → IsCovered s
    → let (taken, added, s') = run cs s in
      IsCovered s' × (all_credits s'.store + taken ≡ all_credits s.store + added)
unfolding run
run-IsCovered [] s h = (h, omega arith)
run-IsCovered ((now, c) ∷ cs) s h =
    let (kept, sum) = call-Kept now c s h in
    let (kept', sum') = run-IsCovered cs (call now c s).2 kept in (kept', omega arith)
