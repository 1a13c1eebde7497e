-- ===== src/Server/Reservations/Spent.antt =====
-- A tool call between a reservation and its commit in src/server.ts: `Gate.evaluate` charges by
-- `deductCredits` of src/store.ts, which does not know of the reservations.
use paygate_mcp.Base.{
  ℕ, ◌+◌, ◌-◌, ◌≤◌, ◌<◌, String, ◌≡◌, refl, ap, sym, subst, true, false, some, arith,
}
use paygate_mcp.Base.Dict.{get, set, get-set_self}
use paygate_mcp.Base.Text.{given}
use paygate_mcp.Types.{ApiKeyRecord}
use paygate_mcp.Keys.{KeyStore, put, get_key, get_key_raw, deduct_credits, deducted}
use paygate_mcp.Server.{PayGateServer, Reservation}
use paygate_mcp.Server.Reservations.{has_lapsed, handle_commit_reservation, take_credits, committed}
use paygate_mcp.Server.Keyed.{IsKeyed, resolve_key_raw_direct, get_key-get}

deduct_credits_enough :
    (key : String) (r : ApiKeyRecord) (price now : ℕ) (s : KeyStore)
    → get_key key now s ≡ some r
    → price ≤ r.credits
    → deduct_credits key price now s ≡ (true, put key (deducted price now r) s)
unfolding deduct_credits
deduct_credits_enough key r price now s found enough = ground arith

-- A commit that finds its reservation and the record of its key.
commit_takes :
    (id : String) (h : Reservation) (owner : ApiKeyRecord) (now : ℕ) (s : PayGateServer)
    → given (some id) ≡ some id
    → get id s.credit_reservations ≡ some h
    → has_lapsed now h ≡ false
    → get h.key s.store.keys ≡ some owner
    → handle_commit_reservation (some id) now s ≡ take_credits id h (some owner) s
unfolding handle_commit_reservation
commit_takes id h owner now s named there live found =
    rw (named, there, live, resolve_key_raw_direct h.key owner s.store found)

-- Take a reservation that is there and has not lapsed, of a usable key, with every record under its
-- own key. A charge that the key's credits allow, but that leaves less than the reserved amount, goes
-- through all the same. The commit that follows reports the whole reserved amount and leaves the key
-- at 0, though it takes only what the charge left, which is less.
pub deduct_credits-commit :
    (id : String) (h : Reservation) (r : ApiKeyRecord) (price now : ℕ) (s : PayGateServer)
    → IsKeyed s.store
    → given (some id) ≡ some id
    → get id s.credit_reservations ≡ some h
    → has_lapsed now h ≡ false
    → get_key h.key now s.store ≡ some r
    → price ≤ r.credits
    → r.credits < price + h.credits
    → let (charged, store) = deduct_credits h.key price now s.store in
      let (reply, s') = handle_commit_reservation (some id) now (record s { store = store }) in
      (charged ≡ true)
      × (get_key_raw h.key store ≡ some (deducted price now r))
      × (r.credits - price < h.credits)
      × (reply ≡ committed h 0)
      × (get_key_raw h.key s'.store ≡ some (record (deducted price now r) { credits = 0 }))
unfolding get_key_raw
deduct_credits-commit id h r price now s keyed named there live found enough short =
    rw
      (
        deduct_credits_enough h.key r price now s.store found enough,
        commit_takes id h charged now s' named there live (get-set_self h.key charged s.store.keys),
      )
      (
        refl,
        get-set_self h.key charged s.store.keys,
        omega arith,
        ap (committed h) nothing,
        rw nothing (
            subst (λ k. get h.key (set k emptied s'.store.keys) ≡ some emptied) (sym own)
              (get-set_self h.key emptied s'.store.keys)),
      )
  where
    charged : ApiKeyRecord
    charged = deducted price now r

    emptied : ApiKeyRecord
    emptied = record charged { credits = 0 }

    s' : PayGateServer
    s' = record s { store = put h.key charged s.store }

    own : r.key ≡ h.key
    own = keyed h.key r (get_key-get h.key r now s.store found)

    nothing : r.credits - price - h.credits ≡ 0
    nothing = omega arith
