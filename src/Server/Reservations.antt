-- ===== src/Server/Reservations.antt =====
-- src/server.ts: the handlers that hold credits of a key, commit a hold and release it.
pub mod Sums
pub mod Covered
pub mod Kept
pub mod Run
pub mod Spent
use Prim.Native.String
use paygate_mcp.Base.{
  ℕ, suc, ◌+◌, ◌-◌, ◌*◌, String, Bool, not, Option, none, some, ltb, leb, min, max, if◌then◌else◌,
  List, [], ◌∷◌,
}
use paygate_mcp.Base.Decimal.{decimal}
use paygate_mcp.Base.Dict
use paygate_mcp.Base.Dict.{Dict, sum_by}
use paygate_mcp.Base.Text.{str_eq, given}
use paygate_mcp.Types.{ApiKeyRecord}
use paygate_mcp.Keys.{put, resolve_key_raw}
use paygate_mcp.Server.{PayGateServer, Reservation, clamp_int, max_credits}

-- `rsv_${n}`
unfoldable pub reservation_id : ℕ → String
reservation_id n = Prim.Native.String.◌++◌ "rsv_" (decimal n)

abbrev pub has_lapsed : ℕ → Reservation → Bool
has_lapsed now r = leb r.expires_at now

unfoldable pub live_only : ℕ → Dict Reservation → Dict Reservation
live_only now [] = []
live_only now ((id, r) ∷ m) =
    if has_lapsed now r then live_only now m else (id, r) ∷ live_only now m

abbrev pub cleanup_expired_reservations : ℕ → PayGateServer → PayGateServer
cleanup_expired_reservations now s = record s {
  credit_reservations = live_only now s.credit_reservations;
}

abbrev pub held_for : String → Reservation → ℕ
held_for key r = if str_eq r.key key then r.credits else 0

unfoldable pub get_held_credits : String → PayGateServer → ℕ
get_held_credits key s = sum_by (held_for key) s.credit_reservations

unfoldable pub reservations_of : String → Dict Reservation → List Reservation
reservations_of key [] = []
reservations_of key ((id, r) ∷ m) =
    if str_eq r.key key then r ∷ reservations_of key m else reservations_of key m

unfoldable pub number_held : String → PayGateServer → ℕ
number_held key s = sum_by (λ r. if str_eq r.key key then 1 else 0) s.credit_reservations

-- `ttlSeconds || 300`, from 10 seconds to an hour
abbrev pub ttl_of : Option ℕ → ℕ
ttl_of none = 300
ttl_of (some t) = min 3600 (max 10 (if ltb 0 t then t else 300))

-- The answers of the handlers; `insufficient` has the credits held, those of the key, and those asked.
pub data ReserveReply : Type 0 where
  missing_key invalid_credits key_not_found key_revoked key_suspended too_many : ReserveReply
  insufficient : ℕ → ℕ → ℕ → ReserveReply
  reserved : Reservation → ℕ → ReserveReply

abbrev pub reservation_for : ApiKeyRecord → ℕ → Option ℕ → ℕ → PayGateServer → Reservation
reservation_for r credits ttl now s = record {
  id = reservation_id s.next_reservation_id;
  key = r.key;
  credits = credits;
  created_at = now;
  expires_at = now + ttl_of ttl * 1000;
}

-- The checks against the reservations that are left, `credits > available` with the held credits on
-- the other side, and the new reservation.
unfoldable pub reserve_for :
    ApiKeyRecord → ℕ → Option ℕ → ℕ → PayGateServer → ReserveReply × PayGateServer
reserve_for r credits ttl now s =
    let held = get_held_credits r.key s in
    if ltb r.credits (credits + held)
    then (insufficient held r.credits credits, s)
    else if leb 50 (number_held r.key s)
    then (too_many, s)
    else let new = reservation_for r credits ttl now s in
      (
        reserved new (r.credits - held - credits),
        record s {
          credit_reservations = Dict.set new.id new s.credit_reservations;
          next_reservation_id = suc s.next_reservation_id;
        },
      )

abbrev pub reserve_key :
    Option ApiKeyRecord → ℕ → Option ℕ → ℕ → PayGateServer → ReserveReply × PayGateServer
reserve_key none credits ttl now s = (key_not_found, s)
reserve_key (some r) credits ttl now s =
    if not r.active
    then (key_revoked, s)
    else if r.suspended
    then (key_suspended, s)
    else reserve_for r (clamp_int credits 1 max_credits) ttl now
        (cleanup_expired_reservations now s)

abbrev reserve_named :
    Option String → ℕ → Option ℕ → ℕ → PayGateServer → ReserveReply × PayGateServer
reserve_named none credits ttl now s = (missing_key, s)
reserve_named (some key) credits ttl now s =
    if ltb 0 credits
    then reserve_key (resolve_key_raw key s.store) credits ttl now s
    else (invalid_credits, s)

unfoldable pub handle_create_reservation :
    Option String → ℕ → Option ℕ → ℕ → PayGateServer → ReserveReply × PayGateServer
handle_create_reservation key credits ttl now s = reserve_named (given key) credits ttl now s

pub data CommitReply : Type 0 where
  missing_reservation_id reservation_not_found reservation_expired committed_key_not_found :
      CommitReply
  committed : Reservation → ℕ → CommitReply

abbrev pub drop_reservation : String → PayGateServer → PayGateServer
drop_reservation id s = record s { credit_reservations = Dict.delete id s.credit_reservations }

-- `Math.max(0, credits - reserved)` on the record, which stands in the store under its own key.
abbrev pub take_credits :
    String → Reservation → Option ApiKeyRecord → PayGateServer → CommitReply × PayGateServer
take_credits id r none s = (committed_key_not_found, drop_reservation id s)
take_credits id r (some owner) s =
    let left = owner.credits - r.credits in
    (
      committed r left,
      record s {
        store = put owner.key (record owner { credits = left }) s.store;
        credit_reservations = Dict.delete id s.credit_reservations;
      },
    )

abbrev pub commit_found :
    String → Option Reservation → ℕ → PayGateServer → CommitReply × PayGateServer
commit_found id none now s = (reservation_not_found, s)
commit_found id (some r) now s =
    if has_lapsed now r
    then (reservation_expired, drop_reservation id s)
    else take_credits id r (resolve_key_raw r.key s.store) s

abbrev commit_named : Option String → ℕ → PayGateServer → CommitReply × PayGateServer
commit_named none now s = (missing_reservation_id, s)
commit_named (some id) now s = commit_found id (Dict.get id s.credit_reservations) now s

unfoldable pub handle_commit_reservation :
    Option String → ℕ → PayGateServer → CommitReply × PayGateServer
handle_commit_reservation id now s = commit_named (given id) now s

pub data ReleaseReply : Type 0 where
  release_missing_id release_not_found : ReleaseReply
  released : Reservation → ReleaseReply

abbrev release_found : String → Option Reservation → PayGateServer → ReleaseReply × PayGateServer
release_found id none s = (release_not_found, s)
release_found id (some r) s = (released r, drop_reservation id s)

abbrev release_named : Option String → PayGateServer → ReleaseReply × PayGateServer
release_named none s = (release_missing_id, s)
release_named (some id) s = release_found id (Dict.get id s.credit_reservations) s

unfoldable pub handle_release_reservation :
    Option String → PayGateServer → ReleaseReply × PayGateServer
handle_release_reservation id s = release_named (given id) s

unfoldable pub all_reservations : Dict Reservation → List Reservation
all_reservations [] = []
all_reservations ((id, r) ∷ m) = r ∷ all_reservations m

abbrev list_for : Option String → PayGateServer → Option (List Reservation)
list_for none s = some (all_reservations s.credit_reservations)
list_for (some key) s = elim (resolve_key_raw key s.store) [
  | none ↦ none
  | some r ↦ some (reservations_of r.key s.credit_reservations)
]

-- `none` where the key is not found. The cleanup stays in either case.
unfoldable pub handle_list_reservations :
    Option String → ℕ → PayGateServer → Option (List Reservation) × PayGateServer
handle_list_reservations key now s =
    let s' = cleanup_expired_reservations now s in (list_for (given key) s', s')
