-- ===== src/Server/Transfers.antt =====
-- src/server.ts: the handlers that top a key up and that move credits from one key to another.
pub mod Exact
use paygate_mcp.Base.{
  ℕ, ◌+◌, ◌-◌, String, Bool, true, false, Option, none, some, ltb, if◌then◌else◌,
}
use paygate_mcp.Base.Text.{str_eq, given}
use paygate_mcp.Types.{ApiKeyRecord}
use paygate_mcp.Keys.{KeyStore, put, get_key, get_key_raw, add_credits, resolve_key}
use paygate_mcp.Ledger.{record_entry, EntryType, topup, transfer_in, transfer_out}
use paygate_mcp.Server.{PayGateServer, clamp_int, max_credits}

abbrev pub note_entry : String → EntryType → ℕ → ℕ → ℕ → ℕ → PayGateServer → PayGateServer
note_entry key type amount before after now s = record s {
  credit_ledger =
      record_entry key
        (record {
          timestamp = now;
          type = type;
          amount = amount;
          balance_before = before;
          balance_after = after;
        })
        s.credit_ledger;
}

abbrev pub credits_or : ℕ → Option ApiKeyRecord → ℕ
credits_or d none = d
credits_or d (some r) = r.credits

pub data TopUpReply : Type 0 where
  missing_key_or_credits top_up_not_found : TopUpReply
  topped_up : ℕ → Option ℕ → TopUpReply

abbrev pub actual_key : String → ℕ → KeyStore → String
actual_key name now s = elim (resolve_key name now s) [ none ↦ name | some r ↦ r.key ]

abbrev balance_of : Option ApiKeyRecord → Option ℕ
balance_of none = none
balance_of (some r) = some r.credits

abbrev pub top_up_with :
    Bool × KeyStore → String → ℕ → ℕ → PayGateServer → TopUpReply × PayGateServer
top_up_with (false, store) key credits now s = (top_up_not_found, record s { store = store })
top_up_with (true, store) key credits now s =
    let before = credits_or 0 (get_key key now s.store) in
    let r = get_key key now store in
    (
      topped_up credits (balance_of r),
      note_entry key topup credits before (credits_or (before + credits) r) now
          (record s { store = store }),
    )

abbrev top_up_named : Option String → ℕ → ℕ → PayGateServer → TopUpReply × PayGateServer
top_up_named none credits now s = (missing_key_or_credits, s)
top_up_named (some name) credits now s =
    let key = actual_key name now s.store in
    let amount = clamp_int credits 1 max_credits in
    if ltb 0 credits
    then top_up_with (add_credits key amount now s.store) key amount now s
    else (missing_key_or_credits, s)

unfoldable pub handle_top_up : Option String → ℕ → ℕ → PayGateServer → TopUpReply × PayGateServer
handle_top_up name credits now s = top_up_named (given name) credits now s

pub data TransferReply : Type 0 where
  missing_keys same_key bad_credits source_not_found destination_not_found : TransferReply
  insufficient_credits : ℕ → ℕ → TransferReply
  transferred : ℕ → ℕ → ℕ → TransferReply

-- An assignment to the credits of the record of a key. The two records of a transfer may be one, so
-- each assignment reads the store anew.
unfoldable pub change_credits : String → (ℕ → ℕ) → KeyStore → KeyStore
change_credits key f s = elim (get_key_raw key s) [
  | none ↦ s
  | some r ↦ put key (record r { credits = f r.credits }) s
]

unfoldable pub moved : String → String → ℕ → KeyStore → KeyStore
moved from to credits s =
    change_credits to (λ c. c + credits) (change_credits from (λ c. c - credits) s)

abbrev pub transfer_between :
    ApiKeyRecord → ApiKeyRecord → ℕ → ℕ → PayGateServer → TransferReply × PayGateServer
transfer_between source dest credits now s =
    let store = moved source.key dest.key credits s.store in
    let from_balance = credits_or 0 (get_key_raw source.key store) in
    let to_balance = credits_or 0 (get_key_raw dest.key store) in
    (
      transferred credits from_balance to_balance,
      note_entry dest.key transfer_in credits dest.credits to_balance now (
          note_entry source.key transfer_out credits source.credits from_balance now
            (record s { store = store })),
    )

abbrev transfer_to :
    ApiKeyRecord → Option ApiKeyRecord → ℕ → ℕ → PayGateServer → TransferReply × PayGateServer
transfer_to source none credits now s = (destination_not_found, s)
transfer_to source (some dest) credits now s = transfer_between source dest credits now s

abbrev transfer_from :
    Option ApiKeyRecord → String → ℕ → ℕ → PayGateServer → TransferReply × PayGateServer
transfer_from none to credits now s = (source_not_found, s)
transfer_from (some source) to credits now s =
    if ltb source.credits credits
    then (insufficient_credits source.credits credits, s)
    else transfer_to source (resolve_key to now s.store) credits now s

abbrev transfer_named :
    Option String → Option String → ℕ → ℕ → PayGateServer → TransferReply × PayGateServer
transfer_named none to credits now s = (missing_keys, s)
transfer_named (some from) none credits now s = (missing_keys, s)
transfer_named (some from) (some to) credits now s =
    if str_eq from to
    then (same_key, s)
    else if ltb 0 credits
    then transfer_from (resolve_key from now s.store) to (clamp_int credits 1 max_credits) now s
    else (bad_credits, s)

unfoldable pub handle_credit_transfer :
    Option String → Option String → ℕ → ℕ → PayGateServer → TransferReply × PayGateServer
handle_credit_transfer from to credits now s = transfer_named (given from) (given to) credits now s
