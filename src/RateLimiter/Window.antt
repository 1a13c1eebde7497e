-- ===== src/RateLimiter/Window.antt =====
-- The limiter over a whole run: calls on any keys, against the global or a tool's limit, mixed with
-- status reads and with the clean-up timer.
pub mod Run
use text.Mathlib.TextEquality.{eq_iff}
use paygate_mcp.Base.{
  ℕ, ◌+◌, ◌≤◌, ◌<◌, String, ◌≡◌, refl, sym, ap, subst, ◌∙◌, Bool, true, false, ◌&&◌, inl, inr,
  Option, none, List, [], ◌∷◌, ◌++◌, arith, ltb, length, filter-append, or_else, if◌then◌else◌,
  Bool-cases, All, All-append, All-map,
}
use paygate_mcp.Base.Dict.{Dict, get, get-set, IsMap, set-IsMap}
use paygate_mcp.Base.Text.{str_eq, str_eq_sound}
use paygate_mcp.RateLimiter.{
  RateLimiter, RateLimitResult, window_ms, live, entry_of, put_entry, check, check_custom,
  record_call, record_custom, get_current_count, get_status, cleanup, cleanup_windows,
}
use paygate_mcp.RateLimiter.History.{IsSpread, filter-filter, snoc-IsSpread}

-- What happens at the limiter: a gate call checks and records when it is allowed.
pub data Event : Type 0 where
  call : String → Event
  call_tool : String → ℕ → Event
  count : String → Event
  status : String → Option ℕ → Event
  clean : Event

abbrev pub finish :
    String
    → ℕ
    → (String → ℕ → RateLimiter → RateLimiter)
    → RateLimitResult × RateLimiter
    → Bool × RateLimiter
finish key now put (r, l) = (r.allowed, if r.allowed then put key now l else l)

unfoldable pub step : ℕ → Event → RateLimiter → Bool × RateLimiter
step now (call key) l = finish key now record_call (check key now l)
step now (call_tool key max) l = finish key now record_custom (check_custom key max now l)
step now (count key) l = (false, (get_current_count key now l).1)
step now (status key max) l = (false, (get_status key max now l).1)
step now clean l = (false, cleanup now l)

-- Whether the event is a call on this key.
abbrev pub is_on : String → Event → Bool
is_on k (call key) = str_eq key k
is_on k (call_tool key max) = str_eq key k
is_on k (count key) = false
is_on k (status key max) = false
is_on k clean = false

-- The times of the calls on `k` that a run admits, oldest first.
unfoldable pub admissions : String → RateLimiter → List (ℕ × Event) → List ℕ
admissions k l [] = []
admissions k l ((now, e) ∷ es) =
    let rest = admissions k (step now e l).1 es in
    if (step now e l).0 && is_on k e then now ∷ rest else rest

-- Every call on `k` goes against a limit between 1 and `n`.
abbrev pub Limits : ℕ → String → ℕ → Event → Type 0
Limits max k n (call key) = str_eq key k ≡ true → (0 < max) × (max ≤ n)
Limits max k n (call_tool key limit) = str_eq key k ≡ true → (0 < limit) × (limit ≤ n)
Limits max k n (count key) = Unit {0}
Limits max k n (status key asked) = Unit {0}
Limits max k n clean = Unit {0}

-- The clock does not go back.
abbrev pub IsOrdered : ℕ → List (ℕ × Event) → Type 0
IsOrdered now [] = Unit {0}
IsOrdered now ((t, e) ∷ es) = (now ≤ t) × IsOrdered t es

pub live-live :
    (now later : ℕ) (ts : List ℕ) → now ≤ later → live later (live now ts) ≡ live later ts
live-live now later ts h =
    filter-filter (λ t. ltb now (t + window_ms)) (λ t. ltb later (t + window_ms)) ts
      (λ t e. ground arith)

pub entry_of-put :
    (j k : String) (ts : List ℕ) (l : RateLimiter)
    → entry_of k (put_entry j ts l) ≡ (if str_eq j k then ts else entry_of k l)
unfolding entry_of
entry_of-put j k ts l = ground (arith, get-set j k ts l.windows)

-- A rewritten entry shows the same live calls.
pub live-put_live :
    (j k : String) (now : ℕ) (l : RateLimiter)
    → live now (entry_of k (put_entry j (live now (entry_of j l)) l)) ≡ live now (entry_of k l)
live-put_live j k now l = elim (Bool-cases (str_eq j k)) [
  | inl same ↦
      rw (entry_of-put j k (live now (entry_of j l)) l, same)
        (live-live now now (entry_of j l) (omega arith)
          ∙ ap (λ i. live now (entry_of i l)) (str_eq_sound j k same))
  | inr other ↦ rw (entry_of-put j k (live now (entry_of j l)) l, other)
]

live-snoc :
    (now : ℕ) (xs ys : List ℕ)
    → live now xs ≡ live now ys
    → live now (xs ++ now ∷ []) ≡ live now (ys ++ now ∷ [])
live-snoc now xs ys e =
    filter-append (λ t. ltb now (t + window_ms)) xs (now ∷ [])
    ∙ ap (λ (ts : List ℕ). ts ++ live now (now ∷ [])) e
    ∙ sym (filter-append (λ t. ltb now (t + window_ms)) ys (now ∷ []))

get-cleanup_windows-none :
    (k : String) (now : ℕ) (m : Dict (List ℕ))
    → get k m ≡ none
    → get k (cleanup_windows now m) ≡ none
unfolding get cleanup_windows
get-cleanup_windows-none k now [] h = refl
get-cleanup_windows-none k now ((j, ts) ∷ m) h = ground (arith, get-cleanup_windows-none k now m)

cleanup_windows-IsMap : (now : ℕ) (m : Dict (List ℕ)) → IsMap m → IsMap (cleanup_windows now m)
unfolding cleanup_windows
cleanup_windows-IsMap now [] h = tt
cleanup_windows-IsMap now ((j, ts) ∷ m) h =
    ground (arith, get-cleanup_windows-none j now m h.0, cleanup_windows-IsMap now m h.1)

-- The timer drops no live call.
live-cleanup_windows :
    (k : String) (now : ℕ) (m : Dict (List ℕ))
    → IsMap m
    → live now (or_else (get k (cleanup_windows now m)) []) ≡ live now (or_else (get k m) [])
unfolding get cleanup_windows
live-cleanup_windows k now [] h = refl
live-cleanup_windows k now ((j, ts) ∷ m) h = ground (
  arith,
  eq_iff j k,
  live-live now now ts,
  live-cleanup_windows k now m h.1,
  get-cleanup_windows-none j now m h.0,
)

-- The state after a run in which `history` was admitted on `k`.
pub record IsKept (max : ℕ) (k : String) (n now : ℕ) (history : List ℕ) (l : RateLimiter)
    : Type 0 where
  pub limit : l.max_calls ≡ max
  pub keys : IsMap l.windows
  pub tracks : live now (entry_of k l) ≡ live now history
  pub past : All (λ s. s ≤ now) history
  pub spread : IsSpread window_ms n history

module _ (max : ℕ) (k : String) (n : ℕ) where
  pub later-IsKept :
      (now later : ℕ) (history : List ℕ) (l : RateLimiter)
      → now ≤ later
      → IsKept max k n now history l
      → IsKept max k n later history l
  later-IsKept now later history l h v = record {
    limit = v.limit;
    keys = v.keys;
    tracks =
        sym (live-live now later (entry_of k l) h)
        ∙ ap (live later) v.tracks
        ∙ live-live now later history h;
    past = All-map (λ s. s ≤ now) (λ s. s ≤ later) history (λ s q. omega arith) v.past;
    spread = v.spread;
  }

  module _ (now : ℕ) (history : List ℕ) where
    pub refresh-IsKept :
        (j : String) (l : RateLimiter)
        → IsKept max k n now history l
        → IsKept max k n now history (put_entry j (live now (entry_of j l)) l)
    refresh-IsKept j l v = record {
      limit = v.limit;
      keys = set-IsMap j (live now (entry_of j l)) l.windows v.keys;
      tracks = live-put_live j k now l ∙ v.tracks;
      past = v.past;
      spread = v.spread;
    }

    pub record_custom-IsKept :
        (j : String) (l : RateLimiter)
        → (str_eq j k ≡ true → length (live now (entry_of k l)) < n)
        → IsKept max k n now history l
        → IsKept max k n now
            (if str_eq j k then history ++ now ∷ [] else history)
            (record_custom j now l)
    unfolding record_custom
    record_custom-IsKept j l room v = elim (Bool-cases (str_eq j k)) [
      | inl same ↦ rw same (record {
        limit = v.limit;
        keys = set-IsMap j (entry_of j l ++ now ∷ []) l.windows v.keys;
        tracks =
            rw (entry_of-put j k (entry_of j l ++ now ∷ []) l, same, str_eq_sound j k same)
              (live-snoc now (entry_of k l) history v.tracks);
        past = All-append (λ s. s ≤ now) history (now ∷ []) v.past (omega arith, tt);
        spread =
            snoc-IsSpread window_ms now history v.past n
              (subst (λ (ts : List ℕ). length ts < n) v.tracks (room same)) v.spread;
      })
      | inr other ↦ rw other (record {
        limit = v.limit;
        keys = set-IsMap j (entry_of j l ++ now ∷ []) l.windows v.keys;
        tracks = rw (entry_of-put j k (entry_of j l ++ now ∷ []) l, other) v.tracks;
        past = v.past;
        spread = v.spread;
      })
    ]

    pub cleanup-IsKept :
        (l : RateLimiter)
        → IsKept max k n now history l
        → IsKept max k n now history (cleanup now l)
    unfolding cleanup entry_of
    cleanup-IsKept l v = record {
      limit = v.limit;
      keys = cleanup_windows-IsMap now l.windows v.keys;
      tracks = live-cleanup_windows k now l.windows v.keys ∙ v.tracks;
      past = v.past;
      spread = v.spread;
    }
