-- ===== src/RateLimiter/Window/Run.antt =====
-- The bound on the calls that the limiter of src/rate-limiter.ts admits in a window.
use mathlib.Core.List.{append-nil, append_assoc}
use paygate_mcp.Base.{
  ℕ, ◌≤◌, ◌<◌, String, ◌≡◌, refl, Bool, true, false, ◌&&◌, inl, inr, Option, List, [], ◌∷◌, ◌++◌,
  arith, leb, length, filter, or_else, if◌then◌else◌, Bool-cases, Option-cases, All,
}
use paygate_mcp.Base.Dict.{get}
use paygate_mcp.Base.Text.{str_eq}
use paygate_mcp.RateLimiter.{
  RateLimiter, LimitReason, rate_limited, tool_rate_limited, window_ms, live, judge, create,
  entry_of, put_entry, check, check_custom, record_call, record_custom, get_current_count,
  get_status,
}
use paygate_mcp.RateLimiter.History.{IsSpread, in_window}
use paygate_mcp.RateLimiter.Window.{
  Event, call, call_tool, count, status, clean, step, finish, is_on, admissions, Limits, IsOrdered,
  IsKept, entry_of-put, live-live, later-IsKept, refresh-IsKept, record_custom-IsKept,
  cleanup-IsKept,
}

-- The history with one more call, if it was admitted and is on the key.
abbrev grow : Bool → Bool → ℕ → List ℕ → List ℕ
grow admitted on now history = if admitted && on then history ++ now ∷ [] else history

module _ (max : ℕ) (k : String) (n now : ℕ) (history : List ℕ) (l : RateLimiter) where
  room_after_refresh :
      (j : String) (limit : ℕ)
      → (str_eq j k ≡ true → limit ≤ n)
      → leb limit (length (live now (entry_of j l))) ≡ false
      → str_eq j k ≡ true
      → length (live now (entry_of k (put_entry j (live now (entry_of j l)) l))) < n
  room_after_refresh j limit fits room same =
      rw
        (
          entry_of-put j k (live now (entry_of j l)) l,
          same,
          live-live now now (entry_of j l) (omega arith),
        )
        (ground (arith, fits same))

  -- The common course of the two checks, and of the record that follows.
  attempt-IsKept :
      (j : String) (limit : ℕ) (reason : LimitReason)
      → (str_eq j k ≡ true → limit ≤ n)
      → IsKept max k n now history l
      → let (b, l') = finish j now record_custom (
        judge limit reason now (live now (entry_of j l)),
        put_entry j (live now (entry_of j l)) l,
      ) in
        IsKept max k n now (grow b (str_eq j k) now history) l'
  attempt-IsKept j limit reason fits v =
      elim (Bool-cases (leb limit (length (live now (entry_of j l))))) [
        | inl full ↦ rw full (refresh-IsKept max k n now history j l v)
        | inr room ↦ rw room (
            record_custom-IsKept max k n now history j (put_entry j (live now (entry_of j l)) l)
              (room_after_refresh j limit fits room) (refresh-IsKept max k n now history j l v))
      ]

  -- Below a limit of 0 the limiter is not asked, and only other keys come through.
  skip-IsKept :
      (j : String) (limit : ℕ)
      → (str_eq j k ≡ true → 0 < limit)
      → leb limit 0 ≡ true
      → IsKept max k n now history l
      → IsKept max k n now (grow true (str_eq j k) now history) l
  skip-IsKept j limit pos off v = elim (Bool-cases (str_eq j k)) [
    | inl same ↦ absurd (ground (arith, pos same))
    | inr other ↦ rw other v
  ]

  call-IsKept :
      (j : String)
      → Limits max k n (call j)
      → IsKept max k n now history l
      → let (b, l') = finish j now record_call (check j now l) in
        IsKept max k n now (grow b (str_eq j k) now history) l'
  unfolding check record_call
  call-IsKept j h v = elim (Bool-cases (leb l.max_calls 0)) [
    | inl off ↦
        rw (off, off) (skip-IsKept j l.max_calls (λ e. omega (arith, v.limit, (h e).0)) off v)
    | inr on ↦
        rw (on, on)
          (attempt-IsKept j l.max_calls (rate_limited l.max_calls)
            (λ e. omega (arith, v.limit, (h e).1)) v)
  ]

  call_tool-IsKept :
      (j : String) (limit : ℕ)
      → Limits max k n (call_tool j limit)
      → IsKept max k n now history l
      → let (b, l') = finish j now record_custom (check_custom j limit now l) in
        IsKept max k n now (grow b (str_eq j k) now history) l'
  unfolding check_custom
  call_tool-IsKept j limit h v = elim (Bool-cases (leb limit 0)) [
    | inl off ↦ elim (Bool-cases (str_eq j k)) [
      | inl same ↦ absurd (ground (arith, h same))
      | inr other ↦
          rw (off, other) (rw other at (record_custom-IsKept max k n now history j l (λ e. cc) v))
    ]
    | inr on ↦ rw on (attempt-IsKept j limit (tool_rate_limited limit) (λ e. (h e).1) v)
  ]

  count-IsKept :
      (j : String)
      → IsKept max k n now history l
      → IsKept max k n now history (get_current_count j now l).1
  unfolding get_current_count entry_of
  count-IsKept j v = elim (Option-cases (get j l.windows)) [
    | inl e ↦ rw (e, get_current_count) v
    | inr (ts, e) ↦ rw (e, get_current_count) (rw e at (refresh-IsKept max k n now history j l v))
  ]

  status-IsKept :
      (j : String) (asked : Option ℕ)
      → IsKept max k n now history l
      → IsKept max k n now history (get_status j asked now l).1
  unfolding get_status entry_of
  status-IsKept j asked v = elim (Bool-cases (leb (or_else asked l.max_calls) 0)) [
    | inl off ↦ rw off v
    | inr on ↦ elim (Option-cases (get j l.windows)) [
      | inl e ↦ rw (on, e) v
      | inr (ts, e) ↦ rw (on, e) (rw e at (refresh-IsKept max k n now history j l v))
    ]
  ]

  step-IsKept :
      (e : Event)
      → Limits max k n e
      → IsKept max k n now history l
      → let (b, l') = step now e l in IsKept max k n now (grow b (is_on k e) now history) l'
  unfolding step
  step-IsKept (call j) h v = call-IsKept j h v
  step-IsKept (call_tool j limit) h v = call_tool-IsKept j limit h v
  step-IsKept (count j) h v = count-IsKept j v
  step-IsKept (status j asked) h v = status-IsKept j asked v
  step-IsKept clean h v = cleanup-IsKept max k n now history l v

create-IsKept : (max : ℕ) (k : String) (n : ℕ) → IsKept max k n 0 [] (create max)
unfolding create entry_of get
create-IsKept max k n = record {
  limit = refl;
  keys = tt;
  tracks = refl;
  past = tt;
  spread = λ t. omega arith;
}

-- From any kept state the history only grows by what the run admits.
run-IsSpread :
    (max : ℕ) (k : String) (n now : ℕ) (history : List ℕ) (l : RateLimiter) (es : List (ℕ × Event))
    → All (λ e. Limits max k n e.1) es
    → IsOrdered now es
    → IsKept max k n now history l
    → IsSpread window_ms n (history ++ admissions k l es)
unfolding admissions
run-IsSpread max k n now history l [] h o v = rw append-nil v.spread
run-IsSpread max k n now history l ((t, e) ∷ es) h o v =
    let later = later-IsKept max k n now t history l o.0 v in
    let (b, l') = step t e l in
    let rest =
      run-IsSpread max k n t (grow b (is_on k e) t history) l' es h.1 o.1
        (step-IsKept max k n t history l e h.0 later) in
    elim (Bool-cases (b && is_on k e)) [
      | inl grown ↦ rw grown (rw (grown, append_assoc) at rest)
      | inr same ↦ rw same (rw same at rest)
    ]

-- Take a fresh limiter with any global limit, any key, and any run of events at times that do not
-- go back: calls on this and other keys, on global and tool limits, status reads and clean-ups. If
-- every call on the key is checked against a limit between 1 and `n`, then every window of 60
-- seconds, wherever it ends, holds at most `n` of the calls on the key that were admitted.
pub admissions-IsSpread :
    (max : ℕ) (k : String) (n : ℕ) (es : List (ℕ × Event))
    → All (λ e. Limits max k n e.1) es
    → IsOrdered 0 es
    → (t : ℕ) → length (filter (in_window window_ms t) (admissions k (create max) es)) ≤ n
admissions-IsSpread max k n es h o =
    run-IsSpread max k n 0 [] (create max) es h o (create-IsKept max k n)
