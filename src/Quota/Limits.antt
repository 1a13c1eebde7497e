-- ===== src/Quota/Limits.antt =====
-- The limits that the quota tracker of src/quota.ts keeps.
use paygate_mcp.Base.{ℕ, ◌≤◌, ◌<◌, ◌≡◌, ◌↔◌, Option, none, some, arith}
use paygate_mcp.Types.{QuotaConfig, ApiKeyRecord}
use paygate_mcp.Quota.{
  check, check_batch, call_within, batch_within, effective_quota, record_call, record_batch,
  add_usage, reset_if_needed,
}

-- A use of `u` fits a limit, where 0 is no limit.
abbrev pub Fits : ℕ → ℕ → Type 0
Fits limit u = 0 < limit → u ≤ limit

-- The counters of a record lie within a quota.
pub record IsWithin (q : QuotaConfig) (r : ApiKeyRecord) : Type 0 where
  pub daily_calls : Fits q.daily_call_limit r.quota_daily_calls
  pub monthly_calls : Fits q.monthly_call_limit r.quota_monthly_calls
  pub daily_credits : Fits q.daily_credit_limit r.quota_daily_credits
  pub monthly_credits : Fits q.monthly_credit_limit r.quota_monthly_credits

module _ (q : QuotaConfig) (r : ApiKeyRecord) where
  pub reset-IsWithin : (now : ℕ) → IsWithin q r → IsWithin q (reset_if_needed now r).1
  unfolding reset_if_needed
  reset-IsWithin now h = ground arith

  batch_within_iff :
      (count need : ℕ) → (batch_within q count need r ≡ none) ↔ IsWithin q (add_usage count need r)
  unfolding batch_within
  batch_within_iff count need = (λ e. ground arith, λ h. ground arith)

  call_within_iff : (need : ℕ) → (call_within q need r ≡ none) ↔ IsWithin q (add_usage 1 need r)
  unfolding call_within
  call_within_iff need = (λ e. ground arith, λ h. ground arith)

pub reset_twice :
    (now : ℕ) (r : ApiKeyRecord)
    → (reset_if_needed now (reset_if_needed now r).1).1 ≡ (reset_if_needed now r).1
unfolding reset_if_needed
reset_twice now r = ground arith

pub quota-reset : (now : ℕ) (r : ApiKeyRecord) → (reset_if_needed now r).1.quota ≡ r.quota
unfolding reset_if_needed
quota-reset now r = ground arith

module _ (q : QuotaConfig) (global : Option QuotaConfig) (now : ℕ) (r : ApiKeyRecord)
    (applies : effective_quota r.quota global ≡ some q) where
  -- The tracker lets a call through exactly when the record that it writes for the call, after the
  -- resets of day and month, has all four counters within the quota that applies: the key's own, or
  -- the global one where the key has none.
  pub check_iff :
      (need : ℕ)
      → ((check need global now r).0 ≡ none)
        ↔ IsWithin q (record_call need now (check need global now r).1)
  unfolding check record_call
  check_iff need =
      rw (quota-reset now r, applies, reset_twice now r)
        (call_within_iff q (reset_if_needed now r).1 need)

  -- The tracker lets a batch of `count` calls, which need `need` credits together, through exactly when
  -- the record that it writes for the batch, after the resets, has all four counters within the quota
  -- that applies.
  pub check_batch_iff :
      (count need : ℕ)
      → ((check_batch count need global now r).0 ≡ none)
        ↔ IsWithin q (record_batch count need now (check_batch count need global now r).1)
  unfolding check_batch record_batch
  check_batch_iff count need =
      rw (quota-reset now r, applies, reset_twice now r)
        (batch_within_iff q (reset_if_needed now r).1 count need)

  -- So a batch of one call is treated like a call.
  pub check_batch-one :
      (need : ℕ)
      → ((check_batch 1 need global now r).0 ≡ none) ↔ ((check need global now r).0 ≡ none)
  unfolding check check_batch
  check_batch-one need =
      rw (quota-reset now r, applies)
        (
          λ e.
              (call_within_iff q (reset_if_needed now r).1 need).1
                ((batch_within_iff q (reset_if_needed now r).1 1 need).0 e),
          λ e.
              (batch_within_iff q (reset_if_needed now r).1 1 need).1
                ((call_within_iff q (reset_if_needed now r).1 need).0 e),
        )

-- Without a quota every call goes through.
pub check-no_quota :
    (need : ℕ) (global : Option QuotaConfig) (now : ℕ) (r : ApiKeyRecord)
    → effective_quota r.quota global ≡ none
    → (check need global now r).0 ≡ none
unfolding check
check-no_quota need global now r e = rw (quota-reset now r, e)
