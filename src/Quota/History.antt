-- ===== src/Quota/History.antt =====
-- The counters of src/quota.ts as a view of the history of uses.
use paygate_mcp.Base.{
  ℕ, ◌+◌, ◌≤◌, ◌<◌, ◌≡◌, refl, sym, subst, List, [], ◌∷◌, arith, ◌==◌, if◌then◌else◌, All, All-map,
}
use paygate_mcp.Calendar.{day_of, month_of}
use paygate_mcp.Types.{ApiKeyRecord}
use paygate_mcp.Quota.{record_batch, reset_if_needed}

-- A batch of calls that went through; a call is a batch of one.
pub record Use : Type 0 where
  pub time : ℕ
  pub calls : ℕ
  pub charged : ℕ

-- The record after these uses, the newest of which stands first.
unfoldable pub record_all : List Use → ApiKeyRecord → ApiKeyRecord
record_all [] r = r
record_all (u ∷ us) r = record_batch u.calls u.charged u.time (record_all us r)

-- What the uses in one period, a day or a month, add up to.
abbrev pub sum_in : (Use → ℕ) → (ℕ → ℕ) → ℕ → List Use → ℕ
sum_in f period p [] = 0
sum_in f period p (u ∷ us) = (if period u.time == p then f u else 0) + sum_in f period p us

-- Periods do not go back, and none is before `start`.
abbrev pub IsRecent : (ℕ → ℕ) → ℕ → List Use → Type 0
IsRecent period start [] = Unit {0}
IsRecent period start (u ∷ us) =
    (start ≤ period u.time) × All (λ v. period v.time ≤ period u.time) us × IsRecent period start us

sum_in-later :
    (f : Use → ℕ) (period : ℕ → ℕ) (p : ℕ) (us : List Use)
    → All (λ v. period v.time < p) us
    → sum_in f period p us ≡ 0
sum_in-later f period p [] h = refl
sum_in-later f period p (u ∷ us) h = ground (arith, sum_in-later f period p us h.1)

-- The counters of a record match the uses in its current day and month.
pub record IsCounted (us : List Use) (r : ApiKeyRecord) : Type 0 where
  pub daily_calls : r.quota_daily_calls ≡ sum_in (λ u. u.calls) day_of r.quota_last_reset_day us
  pub daily_credits :
      r.quota_daily_credits ≡ sum_in (λ u. u.charged) day_of r.quota_last_reset_day us
  pub monthly_calls :
      r.quota_monthly_calls ≡ sum_in (λ u. u.calls) month_of r.quota_last_reset_month us
  pub monthly_credits :
      r.quota_monthly_credits ≡ sum_in (λ u. u.charged) month_of r.quota_last_reset_month us

-- All uses lie in periods up to the current one.
record IsCurrent (us : List Use) (r : ApiKeyRecord) : Type 0 where
  days : All (λ v. day_of v.time ≤ r.quota_last_reset_day) us
  months : All (λ v. month_of v.time ≤ r.quota_last_reset_month) us

module _ (u : Use) (us : List Use) (r : ApiKeyRecord) where
  last_day : (record_batch u.calls u.charged u.time r).quota_last_reset_day ≡ day_of u.time
  unfolding record_batch reset_if_needed
  last_day = ground arith

  last_month : (record_batch u.calls u.charged u.time r).quota_last_reset_month ≡ month_of u.time
  unfolding record_batch reset_if_needed
  last_month = ground arith

  step-IsCurrent :
      All (λ v. day_of v.time ≤ day_of u.time) us
      → All (λ v. month_of v.time ≤ month_of u.time) us
      → IsCurrent (u ∷ us) (record_batch u.calls u.charged u.time r)
  step-IsCurrent days months = record {
    days =
        subst (λ (d : ℕ). All (λ v. day_of v.time ≤ d) (u ∷ us)) (sym last_day) (omega arith, days);
    months =
        subst (λ (d : ℕ). All (λ v. month_of v.time ≤ d) (u ∷ us)) (sym last_month)
          (omega arith, months);
  }

  empty_day :
      (f : Use → ℕ)
      → IsCurrent us r
      → r.quota_last_reset_day < day_of u.time
      → sum_in f day_of (day_of u.time) us ≡ 0
  empty_day f c h = sum_in-later f day_of (day_of u.time) us (
      All-map (λ v. day_of v.time ≤ r.quota_last_reset_day) (λ v. day_of v.time < day_of u.time) us
        (λ v q. omega arith) c.days)

  empty_month :
      (f : Use → ℕ)
      → IsCurrent us r
      → r.quota_last_reset_month < month_of u.time
      → sum_in f month_of (month_of u.time) us ≡ 0
  empty_month f c h = sum_in-later f month_of (month_of u.time) us (
      All-map (λ v. month_of v.time ≤ r.quota_last_reset_month)
        (λ v. month_of v.time < month_of u.time) us (λ v q. omega arith) c.months)

  step-IsCounted :
      IsCurrent us r
      → r.quota_last_reset_day ≤ day_of u.time
      → r.quota_last_reset_month ≤ month_of u.time
      → IsCounted us r
      → IsCounted (u ∷ us) (record_batch u.calls u.charged u.time r)
  unfolding record_batch reset_if_needed
  step-IsCounted c d m h = ground (
    arith,
    empty_day (λ v. v.calls) c,
    empty_day (λ v. v.charged) c,
    empty_month (λ v. v.calls) c,
    empty_month (λ v. v.charged) c,
  )

-- The record's day and month are those of the newest use.
last_reset-record_all :
    (us : List Use) (r : ApiKeyRecord) (day month : ℕ)
    → r.quota_last_reset_day ≤ day
    → r.quota_last_reset_month ≤ month
    → All (λ v. day_of v.time ≤ day) us
    → All (λ v. month_of v.time ≤ month) us
    → ((record_all us r).quota_last_reset_day ≤ day)
      × ((record_all us r).quota_last_reset_month ≤ month)
unfolding record_all record_batch reset_if_needed
last_reset-record_all [] r day month d m ds ms = (d, m)
last_reset-record_all (u ∷ us) r day month d m ds ms = ground arith

record_all-IsCurrent :
    (us : List Use) (r : ApiKeyRecord)
    → IsRecent day_of r.quota_last_reset_day us
    → IsRecent month_of r.quota_last_reset_month us
    → IsCurrent us (record_all us r)
unfolding record_all
record_all-IsCurrent [] r d m = record { days = tt; months = tt }
record_all-IsCurrent (u ∷ us) r d m = step-IsCurrent u us (record_all us r) d.1 m.1

-- Start from a record whose counters are 0, as a new key has, and record any uses, calls or batches,
-- in an order in which neither the UTC day nor the UTC month goes back. Then the daily counters are
-- the calls and credits of the uses in the record's current day, and the monthly counters those in
-- its current month: the resets lose nothing of the current period and keep nothing of an older one.
pub record_all-IsCounted :
    (us : List Use) (r : ApiKeyRecord)
    → IsRecent day_of r.quota_last_reset_day us
    → IsRecent month_of r.quota_last_reset_month us
    → IsCounted [] r
    → IsCounted us (record_all us r)
unfolding record_all
record_all-IsCounted [] r d m h = h
record_all-IsCounted (u ∷ us) r d m h =
    let (day, month) =
      last_reset-record_all us r (day_of u.time) (month_of u.time) d.0 m.0 d.1 m.1 in
    step-IsCounted u us (record_all us r) (record_all-IsCurrent us r d.2 m.2) day month
      (record_all-IsCounted us r d.2 m.2 h)
