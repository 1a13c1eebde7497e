-- ===== src/Quota/Undo.antt =====
-- Refunds at the quota tracker of src/quota.ts.
use paygate_mcp.Base.{ℕ, ◌≡◌, Option, arith}
use paygate_mcp.Types.{QuotaConfig, ApiKeyRecord}
use paygate_mcp.Quota.{check, record_call, reset_if_needed, unrecord}

-- Undoing a recorded call gives back the record that the quota check left, with the same charge.
pub unrecord-record :
    (charged : ℕ) (now : ℕ) (global : Option QuotaConfig) (r : ApiKeyRecord)
    → unrecord charged (record_call charged now (check charged global now r).1)
      ≡ (check charged global now r).1
unfolding unrecord record_call check reset_if_needed
unrecord-record charged now global r = ground arith
