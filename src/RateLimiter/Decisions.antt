-- ===== src/RateLimiter/Decisions.antt =====
-- What each method of src/rate-limiter.ts answers, on every branch.
use paygate_mcp.Base.{
  ℕ, ◌+◌, ◌-◌, ◌≤◌, ◌<◌, String, ◌≡◌, ap, ◌↔◌, ◌⊎◌, inl, inr, true, false, Option, some, List, [],
  ◌∷◌, arith, ltb, leb, length, length-filter-le, or_else, Bool-cases, Option-cases,
}
use paygate_mcp.Base.Dict.{get, get-set}
use paygate_mcp.Base.Text.{str_eq_refl}
use paygate_mcp.RateLimiter.{
  RateLimiter, window_ms, live, reset_in, entry_of, put_entry, check, check_custom,
  get_current_count, get_status,
}
use paygate_mcp.RateLimiter.Window.{entry_of-put, live-live}

-- The number of calls of a key in the window, as the limiter would count them.
abbrev pub used : String → ℕ → RateLimiter → ℕ
used key now l = length (live now (entry_of key l))

-- `check` allows a call exactly when the limit is off or the window has room.
pub check-allowed :
    (key : String) (now : ℕ) (l : RateLimiter)
    → ((check key now l).0.allowed ≡ true) ↔ ((l.max_calls ≡ 0) ⊎ (used key now l < l.max_calls))
unfolding check
check-allowed key now l = ground arith

pub check_custom-allowed :
    (key : String) (max now : ℕ) (l : RateLimiter)
    → ((check_custom key max now l).0.allowed ≡ true) ↔ ((max ≡ 0) ⊎ (used key now l < max))
unfolding check_custom
check_custom-allowed key max now l = ground arith

used-put_live :
    (key : String) (now : ℕ) (l : RateLimiter)
    → used key now (put_entry key (live now (entry_of key l)) l) ≡ used key now l
used-put_live key now l = rw (
  entry_of-put key key (live now (entry_of key l)) l,
  str_eq_refl key,
  live-live now now (entry_of key l) (omega arith),
)

-- Against a positive limit, a count and a status read agree with what `check` counts: the count is
-- the number of calls in the window, the status shows that number and what the limit leaves, and
-- neither read changes the number that the next one finds.
pub reads_agree :
    (key : String) (max : Option ℕ) (now : ℕ) (l : RateLimiter)
    → 0 < or_else max l.max_calls
    → ((get_current_count key now l).0 ≡ used key now l)
      × ((get_status key max now l).0.used ≡ used key now l)
      × ((get_status key max now l).0.remaining ≡ some (or_else max l.max_calls - used key now l))
      × (used key now (get_current_count key now l).1 ≡ used key now l)
      × (used key now (get_status key max now l).1 ≡ used key now l)
unfolding get_current_count get_status entry_of
reads_agree key max now l h = elim (Option-cases (get key l.windows)) [
  | inl e ↦ ground arith
  | inr (ts, e) ↦ ground (
    arith,
    get-set key key (live now ts) l.windows,
    str_eq_refl key,
    live-live now now ts (omega arith),
  )
]

-- At the reset time the oldest call leaves the window.
oldest_leaves :
    (now : ℕ) (ts : List ℕ)
    → live now ts ≡ ts
    → 0 < length ts
    → length (live (now + reset_in now ts) ts) < length ts
oldest_leaves now [] e h = absurd (omega arith)
oldest_leaves now (t ∷ ts) e h = ground (
  arith,
  ap length e,
  length-filter-le (λ s. ltb now (s + window_ms)) ts,
  length-filter-le (λ s. ltb (now + (t + window_ms - now)) (s + window_ms)) ts,
)

-- A denied call that waits for `resetInMs` gets through: if the window holds no more than the limit
-- and `check` refuses, then `check` allows the key at the time that it named, provided that nothing
-- else was recorded for the key.
pub retry_after_reset :
    (key : String) (now : ℕ) (l : RateLimiter)
    → used key now l ≤ l.max_calls
    → (check key now l).0.allowed ≡ false
    → (check key (now + (check key now l).0.reset_in_ms) (check key now l).1).0.allowed ≡ true
unfolding check
retry_after_reset key now l h denied = elim (Bool-cases (leb l.max_calls 0)) [
  | inl off ↦ cc (rw off at denied)
  | inr on ↦ elim (Bool-cases (leb l.max_calls (used key now l))) [
    | inr room ↦ cc (rw (on, room) at denied)
    | inl full ↦
        let ts = live now (entry_of key l) in
        rw (on, full, entry_of-put key key ts l, str_eq_refl key)
          (ground (
            arith,
            oldest_leaves now ts (live-live now now (entry_of key l) (omega arith)) (ground arith),
          ))
  ]
]
