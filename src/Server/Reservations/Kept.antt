-- ===== src/Server/Reservations/Kept.antt =====
-- What each of the reservation handlers and the top-up handler of src/server.ts keeps.
use text.Mathlib.TextEquality.{eq_iff}
use paygate_mcp.Base.{
  ℕ, ◌+◌, ◌-◌, ◌≤◌, String, ◌≡◌, refl, ap, inl, inr, not, Option, none, some, arith, All-map, ltb,
  Bool-cases, Option-cases, if_both,
}
use paygate_mcp.Base.Dict.{get, delete, get-set, sum_by-set}
use paygate_mcp.Base.Text.{str_eq_refl, given}
use paygate_mcp.Base.Values.{sum_by-delete-le, sum_by-delete_found, All-get, All-delete}
use paygate_mcp.Types.{ApiKeyRecord}
use paygate_mcp.Ledger.{CreditLedger}
use paygate_mcp.Keys.Credits.{add_credits-cases}
use paygate_mcp.Keys.{KeyStore, put}
use paygate_mcp.Server.{PayGateServer, Reservation, clamp_int, max_credits}
use paygate_mcp.Server.Transfers.{handle_top_up, TopUpReply, topped_up, actual_key}
use paygate_mcp.Server.Reservations.{
  ReserveReply, get_held_credits, held_for, has_lapsed, cleanup_expired_reservations, reserve_key,
  reserve_for, commit_found, CommitReply, committed,
}
use paygate_mcp.Server.Keyed.{all_credits, resolve_key_raw_direct}
use paygate_mcp.Server.Reservations.Covered.{
  IsCovered, IsOwned, cleanup-IsCovered, drop_reservation-IsCovered, reserve_for-IsCovered,
}

-- What a commit took and what a top-up added, by their answers.
abbrev pub taken_by : CommitReply → ℕ
taken_by (committed r left) = r.credits
taken_by _ = 0

abbrev pub added_by : TopUpReply → ℕ
added_by (topped_up amount balance) = amount
added_by _ = 0

-- Reservations stay covered, and credits change by what was taken and added alone.
abbrev pub Kept : PayGateServer → ℕ → ℕ → PayGateServer → Type 0
Kept s taken added s' = IsCovered s' × (all_credits s'.store + taken ≡ all_credits s.store + added)

reserve_for-store :
    (r : ApiKeyRecord) (credits : ℕ) (ttl : Option ℕ) (now : ℕ) (s : PayGateServer)
    → (reserve_for r credits ttl now s).1.store ≡ s.store
unfolding reserve_for
reserve_for-store r credits ttl now s = ground arith

pub reserve_key-Kept :
    (found : Option ApiKeyRecord) (credits : ℕ) (ttl : Option ℕ) (now : ℕ) (s : PayGateServer)
    → IsCovered s
    → ((r : ApiKeyRecord) → found ≡ some r → get r.key s.store.keys ≡ some r)
    → Kept s 0 0 (reserve_key found credits ttl now s).1
reserve_key-Kept none credits ttl now s h there = (h, refl)
reserve_key-Kept (some r) credits ttl now s h there =
    if_both Fine (not r.active) _ _ (h, refl)
      (if_both Fine r.suspended _ _ (h, refl)
        (
          reserve_for-IsCovered r amount ttl now s' (cleanup-IsCovered now s h) (there r refl),
          ap (λ (t : KeyStore). all_credits t + 0) (reserve_for-store r amount ttl now s'),
        ))
  where
    Fine : ReserveReply × PayGateServer → Type 0
    Fine p = Kept s 0 0 p.1

    amount : ℕ
    amount = clamp_int credits 1 max_credits

    s' : PayGateServer
    s' = cleanup_expired_reservations now s

module _ (now : ℕ) (id : String) (r : Reservation) (owner : ApiKeyRecord) (s : PayGateServer) where
  abbrev less : ApiKeyRecord
  less = record owner { credits = owner.credits - r.credits }

  abbrev after : PayGateServer
  after = record s {
    store = put owner.key less s.store;
    credit_reservations = delete id s.credit_reservations;
  }

  held_falls :
      get id s.credit_reservations ≡ some r
      → get_held_credits r.key after + r.credits ≤ get_held_credits r.key s
  unfolding get_held_credits
  held_falls there = ground (
    arith,
    sum_by-delete_found (held_for r.key) id r s.credit_reservations there,
    str_eq_refl r.key,
  )

  held_shrinks : (k : String) → get_held_credits k after ≤ get_held_credits k s
  unfolding get_held_credits
  held_shrinks k = sum_by-delete-le (held_for k) id s.credit_reservations

  after-Kept :
      IsCovered s
      → get id s.credit_reservations ≡ some r
      → get owner.key s.store.keys ≡ some owner
      → owner.key ≡ r.key
      → Kept s r.credits 0 after
  after-Kept h there found own = (
    record {
      keyed = λ k r' e.
          ground (arith, h.keyed k r', get-set owner.key k less s.store.keys, eq_iff owner.key k);
      covered = λ k r' e. ground (
        arith,
        get-set owner.key k less s.store.keys,
        eq_iff owner.key k,
        held_falls there,
        held_shrinks k,
        h.covered k r',
        h.covered owner.key owner found,
      );
      owned = All-delete (IsOwned after.store) id s.credit_reservations (
          All-map (λ (p : String × Reservation). IsOwned s.store p.1)
            (λ (p : String × Reservation). IsOwned after.store p.1) s.credit_reservations
            (λ p o. ground (arith, get-set owner.key p.1.key less s.store.keys)) h.owned);
      fresh = λ n le. (drop_reservation-IsCovered id s h).fresh n le;
    },
    omega (
      arith,
      sum_by-set (λ (a : ApiKeyRecord). a.credits) owner.key less owner s.store.keys found,
      h.covered owner.key owner found,
      ap (λ k. get_held_credits k s) own,
      held_falls there,
    ),
  )

pub commit_found-Kept :
    (id : String) (now : ℕ) (s : PayGateServer)
    → IsCovered s
    → let (reply, s') = commit_found id (get id s.credit_reservations) now s in
      Kept s (taken_by reply) 0 s'
commit_found-Kept id now s h = elim (Option-cases (get id s.credit_reservations)) [
  | inl missing ↦ rw missing (h, omega arith)
  | inr (r, there) ↦ rw there (elim (Bool-cases (has_lapsed now r)) [
    | inl lapsed ↦ rw lapsed (drop_reservation-IsCovered id s h, omega arith)
    | inr live ↦ rw live (elim (Option-cases (get r.key s.store.keys)) [
      | inl gone ↦
          absurd
            (ground (arith, All-get (IsOwned s.store) id r s.credit_reservations h.owned there))
      | inr (owner, found) ↦ rw (resolve_key_raw_direct r.key owner s.store found) (
          after-Kept now id r owner s h there (ground (arith, h.keyed r.key owner found))
            (h.keyed r.key owner found))
    ])
  ])
]

module _ (key : String) (r : ApiKeyRecord) (amount : ℕ) (s : PayGateServer) (l : CreditLedger) where
  abbrev raised : ApiKeyRecord
  raised = record r { credits = r.credits + amount }

  abbrev raised_server : PayGateServer
  raised_server = record s { store = put key raised s.store; credit_ledger = l }

  raised-Kept : IsCovered s → get key s.store.keys ≡ some r → Kept s 0 amount raised_server
  unfolding get_held_credits
  raised-Kept h found = (
    record {
      keyed = λ k r' e. ground (
        arith,
        h.keyed k r',
        h.keyed key r found,
        get-set key k raised s.store.keys,
        eq_iff key k,
      );
      covered = λ k r' e. ground (
        arith,
        h.covered k r',
        h.covered key r found,
        get-set key k raised s.store.keys,
        eq_iff key k,
      );
      owned =
          All-map (λ (p : String × Reservation). IsOwned s.store p.1)
            (λ (p : String × Reservation). IsOwned raised_server.store p.1) s.credit_reservations
            (λ p o. ground (arith, get-set key p.1.key raised s.store.keys)) h.owned;
      fresh = h.fresh;
    },
    omega (arith, sum_by-set (λ (a : ApiKeyRecord). a.credits) key raised r s.store.keys found),
  )

pub top_up-Kept :
    (name : Option String) (credits now : ℕ) (s : PayGateServer)
    → IsCovered s
    → let (reply, s') = handle_top_up name credits now s in Kept s 0 (added_by reply) s'
unfolding handle_top_up
top_up-Kept name credits now s h = elim (Option-cases (given name)) [
  | inl none_given ↦ rw none_given (h, refl)
  | inr (text, e) ↦ rw e (
      if_both (λ (p : TopUpReply × PayGateServer). Kept s 0 (added_by p.0) p.1) (ltb 0 credits) _ _
        (elim (add_credits-cases (actual_key text now s.store) (clamp_int credits 1 max_credits) now
          s.store) [
            | inl failed ↦ rw failed (h, refl)
            | inr (r, found, done) ↦ rw done (
                raised-Kept (actual_key text now s.store) r (clamp_int credits 1 max_credits) s _ h
                  found)
          ])
        (h, refl))
]
