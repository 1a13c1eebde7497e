-- ===== src/Gate/Topup.antt =====
-- `checkAutoTopup` of src/gate.ts.
use paygate_mcp.Base.{
  ℕ, ◌+◌, String, Bool, true, false, ◌&&◌, Option, none, some, ltb, leb, ◌==◌, if◌then◌else◌,
}
use paygate_mcp.Calendar.{day_of}
use paygate_mcp.Types.{ApiKeyRecord, AutoTopup}
use paygate_mcp.Keys.{get_key, put}
use paygate_mcp.Gate.{Gate, auto_topup, notify}

-- The daily counter after the reset that a new day brings.
abbrev pub topup_day : ℕ → ApiKeyRecord → ApiKeyRecord
topup_day today r =
    if r.auto_topup_last_reset_day == today
    then r
    else record r { auto_topup_today_count = 0; auto_topup_last_reset_day = today }

abbrev pub topped : AutoTopup → ApiKeyRecord → ApiKeyRecord
topped t r = record r {
  credits = r.credits + t.amount;
  auto_topup_today_count = r.auto_topup_today_count + 1;
}

abbrev topup_record : String → AutoTopup → ApiKeyRecord → Gate → Bool × Gate
topup_record key t r g =
    if ltb 0 t.max_daily && leb t.max_daily r.auto_topup_today_count
    then (false, record g { store = put key r g.store })
    else (
      true,
      notify (auto_topup key t.amount (r.credits + t.amount))
          (record g { store = put key (topped t r) g.store }),
    )

abbrev pub topup_key : String → ℕ → ApiKeyRecord → Option AutoTopup → Gate → Bool × Gate
topup_key key now r none g = (false, g)
topup_key key now r (some t) g =
    if leb t.threshold r.credits
    then (false, g)
    else topup_record key t (topup_day (day_of now) r) g

unfoldable pub check_auto_topup : String → ℕ → Gate → Bool × Gate
check_auto_topup key now g = elim (get_key key now g.store) [
  | none ↦ (false, g)
  | some r ↦ topup_key key now r r.auto_topup g
]
