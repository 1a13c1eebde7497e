-- ===== src/Ledger.antt =====
-- src/credit-ledger.ts: the history of credit changes of each key, cut to its newest entries. A time is
-- its milliseconds, in place of the ISO text that orders the same; the tool and the memo of an entry are
-- left out. The spending forecast, which divides numbers with a fraction, is not modelled.
pub mod Refinement
use mathlib.Core.List.{reverse}
use paygate_mcp.Base.{
  ℕ, zero, suc, ◌-◌, String, Option, none, some, List, [], ◌∷◌, ◌++◌, length, ◌==◌, drop, take,
  filter, ltb, leb, or_else, if◌then◌else◌,
}
use paygate_mcp.Base.Dict
use paygate_mcp.Base.Dict.{Dict}

pub data EntryType : Type 0 where
  initial topup deduction transfer_in transfer_out auto_topup refund bulk_topup : EntryType

abbrev type_number : EntryType → ℕ
type_number initial = 0
type_number topup = 1
type_number deduction = 2
type_number transfer_in = 3
type_number transfer_out = 4
type_number auto_topup = 5
type_number refund = 6
type_number bulk_topup = 7

pub record CreditEntry : Type 0 where
  pub timestamp : ℕ
  pub type : EntryType
  pub amount : ℕ
  pub balance_before : ℕ
  pub balance_after : ℕ

pub record CreditLedger : Type 0 where
  pub entries : Dict (List CreditEntry)
  pub max_entries_per_key : ℕ

unfoldable pub create : CreditLedger
create = record { entries = []; max_entries_per_key = 100 }

abbrev pub list_of : String → CreditLedger → List CreditEntry
list_of key l = or_else (Dict.get key l.entries) []

-- The splice at the end of `record`.
unfoldable pub cap_list : ℕ → List CreditEntry → List CreditEntry
cap_list cap list = if ltb cap (length list) then drop (length list - cap) list else list

unfoldable pub record_entry : String → CreditEntry → CreditLedger → CreditLedger
record_entry key entry l = record l {
  entries = Dict.set key (cap_list l.max_entries_per_key (list_of key l ++ entry ∷ [])) l.entries;
}

abbrev pub of_type : Option EntryType → List CreditEntry → List CreditEntry
of_type none list = list
of_type (some t) list = filter (λ e. type_number e.type == type_number t) list

abbrev pub since_time : Option ℕ → List CreditEntry → List CreditEntry
since_time none list = list
since_time (some t) list = filter (λ e. leb t e.timestamp) list

abbrev pub limited : Option ℕ → List CreditEntry → List CreditEntry
limited none list = list
limited (some zero) list = list
limited (some (suc n)) list = take (suc n) list

unfoldable pub get_history :
    String → Option EntryType → Option ℕ → Option ℕ → CreditLedger → List CreditEntry
get_history key type since limit l =
    limited limit (since_time since (of_type type (reverse (list_of key l))))

unfoldable pub count : String → CreditLedger → ℕ
count key l = length (list_of key l)

unfoldable pub clear : String → CreditLedger → CreditLedger
clear key l = record l { entries = Dict.delete key l.entries }
