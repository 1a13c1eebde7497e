-- ===== src/Meter/Bounds.antt =====
-- What the log of src/meter.ts keeps.
use paygate_mcp.Base.{
  ℕ, zero, suc, ◌+◌, ◌/◌, ◌≤◌, ◌≡◌, refl, sym, ap, ◌∙◌, inl, inr, List, [], ◌∷◌, ◌++◌, length, drop,
  arith, ltb, length-append, length-drop, Bool-cases,
}
use mathlib.Core.List.{append-nil, append_assoc}
use paygate_mcp.Meter.{UsageEvent, UsageMeter, record_event}

unfoldable pub record_events : List UsageEvent → UsageMeter → UsageMeter
record_events [] m = m
record_events (e ∷ es) m = record_events es (record_event e m)

drop-drop_append :
    (a b : ℕ) (xs ys : List UsageEvent)
    → b ≤ length xs
    → drop a (drop b xs ++ ys) ≡ drop (b + a) (xs ++ ys)
drop-drop_append a zero xs ys h =
    let same : 0 + a ≡ a = omega arith in ap (λ (n : ℕ). drop n (xs ++ ys)) (sym same)
drop-drop_append a (suc b) [] ys h = absurd (omega arith)
drop-drop_append a (suc b) (x ∷ xs) ys h =
    let next : suc b + a ≡ suc (b + a) = omega arith in
    rw next (drop-drop_append a b xs ys (omega arith))

-- The log after `grown` events and the ones to come.
abbrev IsRecent : List UsageEvent → UsageMeter → Type 0
IsRecent all m =
    (length m.events ≤ m.max_events) × ((n : ℕ) × (n ≤ length all) × (m.events ≡ drop n all))

record_event-IsRecent :
    (e : UsageEvent) (all : List UsageEvent) (m : UsageMeter)
    → 4 ≤ m.max_events
    → IsRecent all m
    → IsRecent (all ++ e ∷ []) (record_event e m)
unfolding record_event
record_event-IsRecent e all m h (short, (n, le, kept)) =
    elim (Bool-cases (ltb m.max_events (length (m.events ++ e ∷ [])))) [
      | inl full ↦ rw full (
        ground (
          arith,
          length-drop (m.max_events / 4) (m.events ++ e ∷ []),
          length-append m.events (e ∷ []),
        ),
        (
          n + m.max_events / 4,
          ground (
            arith,
            length-append m.events (e ∷ []),
            length-append all (e ∷ []),
            length-drop n all,
            ap length kept,
          ),
          ap (λ (xs : List UsageEvent). drop (m.max_events / 4) (xs ++ e ∷ [])) kept
              ∙ drop-drop_append (m.max_events / 4) n all (e ∷ []) le,
        ),
      )
      | inr room ↦ rw room (
        ground arith,
        (
          n,
          omega (arith, length-append all (e ∷ [])),
          ap (λ (xs : List UsageEvent). xs ++ e ∷ []) kept
              ∙ drop-drop_append 0 n all (e ∷ []) le
              ∙ ap (λ (k : ℕ). drop k (all ++ e ∷ [])) unmoved,
        ),
      )
    ]
  where
    unmoved : n + 0 ≡ n
    unmoved = omega arith

record_events-IsRecent :
    (es all : List UsageEvent) (m : UsageMeter)
    → 4 ≤ m.max_events
    → IsRecent all m
    → IsRecent (all ++ es) (record_events es m)
unfolding record_events
record_events-IsRecent [] all m h v = rw append-nil v
record_events-IsRecent (e ∷ es) all m h v = rw append_assoc at (
    record_events-IsRecent es (all ++ e ∷ []) (record_event e m) (unfold record_event in h)
      (record_event-IsRecent e all m h v))

-- From a log within its bound, with room for at least four events, the log never holds more than
-- `maxEvents`, and what it holds is a tail of all that was recorded: the oldest events go first and
-- nothing is reordered.
pub record_events_keep_newest :
    (es : List UsageEvent) (m : UsageMeter)
    → 4 ≤ m.max_events
    → length m.events ≤ m.max_events
    → (length (record_events es m).events ≤ (record_events es m).max_events)
      × ((n : ℕ) × (n ≤ length (m.events ++ es))
          × ((record_events es m).events ≡ drop n (m.events ++ es)))
record_events_keep_newest es m h short =
    record_events-IsRecent es m.events m h (short, (0, omega arith, refl))
