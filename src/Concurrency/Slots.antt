-- ===== src/Concurrency/Slots.antt =====
-- What the slots of src/concurrency-limiter.ts guarantee.
use text.Mathlib.TextEquality.{eq_iff}
use paygate_mcp.Base.{ℕ, ◌+◌, ◌-◌, ◌≤◌, ◌<◌, String, ◌≡◌, ◌↔◌, List, [], ◌∷◌, arith, if◌then◌else◌}
use paygate_mcp.Base.Dict
use paygate_mcp.Base.Dict.{Dict, get-set, get-delete}
use paygate_mcp.Base.Text.{str_eq}
use paygate_mcp.Concurrency
use paygate_mcp.Concurrency.{
  ConcurrencyLimiterConfig, ConcurrencyLimiter, AcquireResult, acquired, inflight, add_one,
  remove_one, acquire, release, composite, get_key_inflight, get_tool_inflight,
}

inflight-add_one :
    (k j : String) (m : Dict ℕ)
    → inflight j (add_one k m) ≡ (if str_eq k j then inflight j m + 1 else inflight j m)
unfolding inflight
inflight-add_one k j m = ground (arith, get-set k j (inflight k m + 1) m, eq_iff k j)

inflight-remove_one :
    (k j : String) (m : Dict ℕ)
    → inflight j (remove_one k m) ≡ (if str_eq k j then inflight j m - 1 else inflight j m)
unfolding inflight
inflight-remove_one k j m =
    ground (arith, get-set k j (inflight k m - 1) m, get-delete k j m, eq_iff k j)

inflight-remove_add :
    (k j : String) (m : Dict ℕ) → inflight j (remove_one k (add_one k m)) ≡ inflight j m
inflight-remove_add k j m =
    ground (arith, inflight-remove_one k j (add_one k m), inflight-add_one k j m)

acquire-taken :
    (key tool : String) (l : ConcurrencyLimiter)
    → (acquire key tool l).0 ≡ acquired
    → (acquire key tool l).1 ≡ record l {
      by_key = add_one key l.by_key;
      by_tool = add_one tool l.by_tool;
      by_key_tool = add_one (composite key tool) l.by_key_tool;
    }
unfolding acquire
acquire-taken key tool l given = ground arith

-- A slot is given exactly when the limits per key and per tool, where they are set, have room.
pub acquire_iff :
    (key tool : String) (l : ConcurrencyLimiter)
    → ((acquire key tool l).0 ≡ acquired) ↔ (
        (0 < l.config.max_concurrent_per_key
          → get_key_inflight key l < l.config.max_concurrent_per_key)
        × (0 < l.config.max_concurrent_per_tool
            → get_tool_inflight tool l < l.config.max_concurrent_per_tool))
unfolding acquire
acquire_iff key tool l = ground arith

-- A slot that is given and released leaves the count of every key, every tool and every pair of
-- them as it was.
pub release-acquire :
    (key tool : String) (l : ConcurrencyLimiter)
    → (acquire key tool l).0 ≡ acquired
    → (j : String)
    → (get_key_inflight j (release key tool (acquire key tool l).1) ≡ get_key_inflight j l)
      × (get_tool_inflight j (release key tool (acquire key tool l).1) ≡ get_tool_inflight j l)
      × (inflight j (release key tool (acquire key tool l).1).by_key_tool
          ≡ inflight j l.by_key_tool)
unfolding release
release-acquire key tool l given j = rw (acquire-taken key tool l given) (
  inflight-remove_add key j l.by_key,
  inflight-remove_add tool j l.by_tool,
  inflight-remove_add (composite key tool) j l.by_key_tool,
)

-- The calls in flight of every key and every tool are within the limits.
pub record IsWithinLimits (l : ConcurrencyLimiter) : Type 0 where
  pub keys :
      (j : String)
      → 0 < l.config.max_concurrent_per_key
      → get_key_inflight j l ≤ l.config.max_concurrent_per_key
  pub tools :
      (j : String)
      → 0 < l.config.max_concurrent_per_tool
      → get_tool_inflight j l ≤ l.config.max_concurrent_per_tool

pub data Event : Type 0 where
  ask finish : String → String → Event

abbrev pub step : Event → ConcurrencyLimiter → ConcurrencyLimiter
step (ask key tool) l = (acquire key tool l).1
step (finish key tool) l = release key tool l

unfoldable pub run : List Event → ConcurrencyLimiter → ConcurrencyLimiter
run [] l = l
run (e ∷ es) l = run es (step e l)

step-IsWithinLimits :
    (e : Event) (l : ConcurrencyLimiter) → IsWithinLimits l → IsWithinLimits (step e l)
unfolding acquire release
step-IsWithinLimits (ask key tool) l h = record {
  keys = λ j. ground (arith, h.keys j, inflight-add_one key j l.by_key, eq_iff key j);
  tools = λ j. ground (arith, h.tools j, inflight-add_one tool j l.by_tool, eq_iff tool j);
}
step-IsWithinLimits (finish key tool) l h = record {
  keys = λ j. ground (arith, h.keys j, inflight-remove_one key j l.by_key);
  tools = λ j. ground (arith, h.tools j, inflight-remove_one tool j l.by_tool);
}

run-IsWithinLimits_from :
    (es : List Event) (l : ConcurrencyLimiter) → IsWithinLimits l → IsWithinLimits (run es l)
unfolding run
run-IsWithinLimits_from [] l h = h
run-IsWithinLimits_from (e ∷ es) l h =
    run-IsWithinLimits_from es (step e l) (step-IsWithinLimits e l h)

-- Whatever calls ask for slots and finish, in any order, no key and no tool ever has more calls in
-- flight than its limit, where one is set.
pub run-IsWithinLimits :
    (config : ConcurrencyLimiterConfig) (es : List Event)
    → IsWithinLimits (run es (Concurrency.create config))
unfolding Concurrency.create
run-IsWithinLimits config es = run-IsWithinLimits_from es (Concurrency.create config) (record {
  keys = λ j. unfold inflight Dict.get in λ p. omega arith;
  tools = λ j. unfold inflight Dict.get in λ p. omega arith;
})
