-- ===== src/Server/Reservations/Covered.antt =====
-- The credits that src/server.ts holds for a key are credits that the key has, as long as only the
-- reservation handlers and top-ups change credits.
use text.Mathlib.TextEquality.{eq_iff}
use paygate_mcp.Base.{
  ℕ, suc, ◌+◌, ◌≤◌, String, ◌≡◌, ap, inl, inr, true, Option, none, some, arith, All, is_some, ltb,
  leb, Bool-cases,
}
use paygate_mcp.Base.Dict.{Dict, get, set, get-set, get-delete, sum_by-set_new}
use paygate_mcp.Base.Values.{sum_by-delete-le, All-delete, All-set}
use paygate_mcp.Types.{ApiKeyRecord}
use paygate_mcp.Keys.{KeyStore}
use paygate_mcp.Server.{PayGateServer, Reservation}
use paygate_mcp.Server.Keyed.{IsKeyed}
use paygate_mcp.Server.Reservations.{
  reservation_id, held_for, get_held_credits, cleanup_expired_reservations, number_held,
  drop_reservation, reserve_for, reservation_for,
}
use paygate_mcp.Server.Reservations.Sums.{
  sum_by-live_only-le, All-live_only, live_only_missing, reservation_id_injective,
}

abbrev pub IsOwned : KeyStore → Reservation → Type 0
IsOwned s r = is_some (get r.key s.keys) ≡ true

-- No key has more held than it has, every hold is of a key that is there, and the ids to come are
-- unused.
pub record IsCovered (s : PayGateServer) : Type 0 where
  pub keyed : IsKeyed s.store
  pub covered :
      (k : String) (r : ApiKeyRecord)
      → get k s.store.keys ≡ some r
      → get_held_credits k s ≤ r.credits
  pub owned : All (λ (p : String × Reservation). IsOwned s.store p.1) s.credit_reservations
  pub fresh :
      (n : ℕ) → s.next_reservation_id ≤ n → get (reservation_id n) s.credit_reservations ≡ none

pub cleanup-IsCovered :
    (now : ℕ) (s : PayGateServer) → IsCovered s → IsCovered (cleanup_expired_reservations now s)
cleanup-IsCovered now s h = record {
  keyed = h.keyed;
  covered = λ k r e.
      unfold get_held_credits in
      omega (arith, h.covered k r e, sum_by-live_only-le (held_for k) now s.credit_reservations);
  owned = All-live_only (IsOwned s.store) now s.credit_reservations h.owned;
  fresh = λ n le. live_only_missing (reservation_id n) now s.credit_reservations (h.fresh n le);
}

pub drop_reservation-IsCovered :
    (id : String) (s : PayGateServer) → IsCovered s → IsCovered (drop_reservation id s)
drop_reservation-IsCovered id s h = record {
  keyed = h.keyed;
  covered = λ k r e.
      unfold get_held_credits in
      omega (arith, h.covered k r e, sum_by-delete-le (held_for k) id s.credit_reservations);
  owned = All-delete (IsOwned s.store) id s.credit_reservations h.owned;
  fresh =
      λ n le. ground (arith, h.fresh n le, get-delete id (reservation_id n) s.credit_reservations);
}

module _ (r : ApiKeyRecord) (credits : ℕ) (ttl : Option ℕ) (now : ℕ) (s : PayGateServer) where
  abbrev new : Reservation
  new = reservation_for r credits ttl now s

  abbrev grown : Dict Reservation
  grown = set new.id new s.credit_reservations

  abbrev grown_server : PayGateServer
  grown_server = record s {
    credit_reservations = grown;
    next_reservation_id = suc s.next_reservation_id;
  }

  grown-IsCovered :
      IsCovered s
      → get r.key s.store.keys ≡ some r
      → credits + get_held_credits r.key s ≤ r.credits
      → IsCovered grown_server
  grown-IsCovered h found enough = record {
    keyed = h.keyed;
    covered = λ k r' e.
        unfold get_held_credits in
        ground (
          arith,
          h.covered k r' e,
          eq_iff r.key k,
          enough,
          sum_by-set_new (held_for k) new.id new s.credit_reservations
              (h.fresh s.next_reservation_id (omega arith)),
        );
    owned = All-set (IsOwned s.store) new.id new s.credit_reservations (ap is_some found) h.owned;
    fresh = λ n le. ground (
      arith,
      h.fresh n (omega arith),
      get-set new.id (reservation_id n) new s.credit_reservations,
      eq_iff new.id (reservation_id n),
      reservation_id_injective s.next_reservation_id n,
    );
  }

  pub reserve_for-IsCovered :
      IsCovered s → get r.key s.store.keys ≡ some r → IsCovered (reserve_for r credits ttl now s).1
  unfolding reserve_for
  reserve_for-IsCovered h found =
      elim (Bool-cases (ltb r.credits (credits + get_held_credits r.key s))) [
        | inl short ↦ rw short h
        | inr room ↦ rw room (elim (Bool-cases (leb 50 (number_held r.key s))) [
          | inl full ↦ rw full h
          | inr open_place ↦ rw open_place (grown-IsCovered h found (ground arith))
        ])
      ]
