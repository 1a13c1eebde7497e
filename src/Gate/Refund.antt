-- ===== src/Gate/Refund.antt =====
-- `refund` of src/gate.ts.
use paygate_mcp.Base.{ℕ, ◌-◌, String, true, Option, none, some}
use paygate_mcp.Base.Text.{take_chars}
use paygate_mcp.Types.{ApiKeyRecord, refunded}
use paygate_mcp.Quota
use paygate_mcp.Keys.{KeyStore, get_key, add_credits}
use paygate_mcp.Meter.{record_event}
use paygate_mcp.Gate.{Gate, edit}

-- `Math.max(0, a - b)` is the subtraction of natural numbers.
abbrev pub taken_back : ℕ → ApiKeyRecord → ApiKeyRecord
taken_back credits r =
    Quota.unrecord credits
      (record r { total_spent = r.total_spent - credits; total_calls = r.total_calls - 1 })

abbrev pub refund_store : String → ℕ → KeyStore → Option ApiKeyRecord → KeyStore
refund_store key credits s none = s
refund_store key credits s (some r) = edit key (taken_back credits) s

abbrev event_name : Option ApiKeyRecord → String
event_name none = "unknown"
event_name (some r) = r.name

abbrev event_namespace : Option ApiKeyRecord → Option String
event_namespace none = none
event_namespace (some r) = some r.namespace

-- The event's credits count as negative.
unfoldable pub refund : String → String → ℕ → ℕ → Gate → Gate
refund key tool credits now g =
    let s = (add_credits key credits now g.store).1 in
    let r = get_key key now s in
    record g {
      store = refund_store key credits s r;
      meter =
          record_event
            (record {
              timestamp = now;
              api_key = take_chars 10 key;
              key_name = event_name r;
              tool = tool;
              credits_charged = credits;
              is_refund = true;
              allowed = true;
              deny_reason = some refunded;
              namespace = event_namespace r;
            })
            g.meter;
    }
