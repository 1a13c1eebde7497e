-- ===== src/Server.antt =====
-- src/server.ts: the parts of `PayGateServer` that the handlers of the administration change: the
-- gate's key store, the credit ledger, the scheduled actions and the credit reservations. A handler is
-- modelled from the point where its request is authorised and its body parsed; the audit log, the
-- webhooks and Redis, which is not connected here, are left out. A number in a request is a natural
-- number, and 0 stands for one that is missing, not positive or not a number, all of which are refused.
pub mod Keyed
pub mod Transfers
pub mod Reservations
pub mod Schedules
use paygate_mcp.Base.{ℕ, String, List, min, max}
use paygate_mcp.Base.Dict.{Dict}
use paygate_mcp.Keys.{KeyStore}
use paygate_mcp.Ledger.{CreditLedger}

pub data Action : Type 0 where
  revoke suspend : Action
  topup : ℕ → Action

-- The credits of a top-up, which the source keeps in `params`, stand in the action.
pub record ScheduledAction : Type 0 where
  pub id : String
  pub key : String
  pub action : Action
  pub execute_at : ℕ
  pub created_at : ℕ

-- The memo is left out.
pub record Reservation : Type 0 where
  pub id : String
  pub key : String
  pub credits : ℕ
  pub created_at : ℕ
  pub expires_at : ℕ

pub record PayGateServer : Type 0 where
  pub store : KeyStore
  pub credit_ledger : CreditLedger
  pub scheduled_actions : List ScheduledAction
  pub next_schedule_id : ℕ
  pub credit_reservations : Dict Reservation
  pub next_reservation_id : ℕ

abbrev pub max_credits : ℕ
max_credits = 1000000000

-- The value of `clampInt` at a number that is given.
abbrev pub clamp_int : ℕ → ℕ → ℕ → ℕ
clamp_int value lo hi = min hi (max lo value)
