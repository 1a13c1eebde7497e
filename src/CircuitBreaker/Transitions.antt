-- ===== src/CircuitBreaker/Transitions.antt =====
-- The state machine of src/circuit-breaker.ts: when the circuit opens, how long it stays open, and how
-- it recovers.
use paygate_mcp.Base.{
  ℕ, suc, ◌+◌, ◌≤◌, ◌<◌, ◌≡◌, ◌≢◌, refl, inl, inr, true, none, some, List, [], ◌∷◌, arith, leb,
  length, ◌∙◌, Bool-cases, if◌then◌else◌,
}
use paygate_mcp.CircuitBreaker
use paygate_mcp.CircuitBreaker.{
  CircuitState, closed, opened, half_open, CircuitBreaker, allow_request, record_success,
  record_failure, status,
}

-- What a server does with the breaker, at the time that it reads.
pub data Event : Type 0 where
  ask fail report : ℕ → Event
  succeed clear : Event

abbrev pub step : Event → CircuitBreaker → CircuitBreaker
step (ask now) b = (allow_request now b).1
step (fail now) b = record_failure now b
step (report now) b = (status now b).1
step succeed b = record_success b
step clear b = CircuitBreaker.reset b

unfoldable pub run : List Event → CircuitBreaker → CircuitBreaker
run [] b = b
run (e ∷ es) b = run es (step e b)

-- What the fields of a state are to each other.
abbrev pub Agrees : CircuitState → CircuitBreaker → Type 0
Agrees closed b = (b.consecutive_failures < b.threshold) × (b.opened_at ≡ none)
Agrees opened b = (0 < b.consecutive_failures) × (b.opened_at ≢ none)
Agrees half_open b = (0 < b.consecutive_failures) × (b.opened_at ≢ none)

pub record IsConsistent (b : CircuitBreaker) : Type 0 where
  pub agrees : Agrees b.state b
  pub positive : 0 < b.threshold
  pub counted : b.consecutive_failures ≤ b.total_failures

create-IsConsistent : (n s : ℕ) → IsConsistent (CircuitBreaker.create n s)
unfolding CircuitBreaker.create
create-IsConsistent n s = record {
  agrees = ground arith;
  positive = ground arith;
  counted = omega arith;
}

step-IsConsistent_in :
    (e : Event) (s : CircuitState) (b : CircuitBreaker)
    → IsConsistent (record b { state = s })
    → IsConsistent (step e (record b { state = s }))
unfolding allow_request record_failure status record_success CircuitBreaker.reset
step-IsConsistent_in (ask now) closed b h = h
step-IsConsistent_in (ask now) opened b h = record {
  agrees = ground (arith, h.agrees);
  positive = ground (arith, h.positive);
  counted = ground (arith, h.counted);
}
step-IsConsistent_in (ask now) half_open b h = h
step-IsConsistent_in (fail now) closed b h = record {
  agrees = ground (arith, h.agrees);
  positive = ground (arith, h.positive);
  counted = ground (arith, h.counted);
}
step-IsConsistent_in (fail now) opened b h = record {
  agrees = ground (arith, h.agrees);
  positive = h.positive;
  counted = ground (arith, h.counted);
}
step-IsConsistent_in (fail now) half_open b h = record {
  agrees = ground (arith, h.agrees);
  positive = h.positive;
  counted = ground (arith, h.counted);
}
step-IsConsistent_in (report now) closed b h = h
step-IsConsistent_in (report now) opened b h = record {
  agrees = ground (arith, h.agrees);
  positive = ground (arith, h.positive);
  counted = ground (arith, h.counted);
}
step-IsConsistent_in (report now) half_open b h = h
step-IsConsistent_in succeed closed b h = record {
  agrees = ground (arith, h.agrees, h.positive);
  positive = h.positive;
  counted = omega arith;
}
step-IsConsistent_in succeed opened b h = record {
  agrees = h.agrees;
  positive = h.positive;
  counted = h.counted;
}
step-IsConsistent_in succeed half_open b h = record {
  agrees = (h.positive, refl);
  positive = h.positive;
  counted = omega arith;
}
step-IsConsistent_in clear s b h = record {
  agrees = (h.positive, refl);
  positive = h.positive;
  counted = omega arith;
}

run-IsConsistent_from :
    (es : List Event) (b : CircuitBreaker) → IsConsistent b → IsConsistent (run es b)
unfolding run
run-IsConsistent_from [] b h = h
run-IsConsistent_from (e ∷ es) b h =
    run-IsConsistent_from es (step e b) (step-IsConsistent_in e b.state b h)

-- In every state that events lead to from a new breaker, the circuit is closed with fewer failures in
-- a row than the threshold and no time of opening, or it is not closed, has a failure and such a time.
pub run-IsConsistent :
    (threshold cooldown_seconds : ℕ) (es : List Event)
    → IsConsistent (run es (CircuitBreaker.create threshold cooldown_seconds))
run-IsConsistent n c es =
    run-IsConsistent_from es (CircuitBreaker.create n c) (create-IsConsistent n c)

abbrev pub failures : List ℕ → List Event
failures [] = []
failures (now ∷ times) = fail now ∷ failures times

failures-opened :
    (b : CircuitBreaker) (times : List ℕ)
    → b.state ≡ opened
    → (run (failures times) b).state ≡ opened
unfolding run record_failure
failures-opened b [] o = o
failures-opened b (now ∷ times) o = failures-opened (record_failure now b) times (ground arith)

-- From a closed circuit with fewer failures in a row than the threshold, further failures without a
-- success between them open it once the threshold is reached, and no earlier.
pub failures_open :
    (b : CircuitBreaker) (times : List ℕ)
    → b.state ≡ closed
    → b.consecutive_failures < b.threshold
    → (run (failures times) b).state
      ≡ (if leb b.threshold (b.consecutive_failures + length times) then opened else closed)
unfolding run record_failure
failures_open b [] c low = ground arith
failures_open b (now ∷ times) c low =
    elim (Bool-cases (leb b.threshold (b.consecutive_failures + 1))) [
      | inl over ↦
          let o = failures-opened (record_failure now b) times (ground arith) in
          let l : leb b.threshold (b.consecutive_failures + suc (length times)) ≡ true =
            ground arith in
          o ∙ rw l refl
      | inr under ↦
          ground (arith, failures_open (record_failure now b) times (ground arith) (ground arith))
    ]

abbrev pub requests : List ℕ → List Event
requests [] = []
requests (now ∷ times) = ask now ∷ requests times

-- Every time of a list comes before `t`.
abbrev pub AllBefore : ℕ → List ℕ → Type 0
AllBefore t [] = Unit {0}
AllBefore t (now ∷ times) = (now < t) × AllBefore t times

-- An open circuit with a cooldown, opened at a time, rejects and counts every request of a list
-- whose times all come before the end of the cooldown, and changes in nothing else.
pub requests_rejected :
    (b : CircuitBreaker) (t : ℕ) (times : List ℕ)
    → b.state ≡ opened
    → b.opened_at ≡ some t
    → 0 < b.cooldown_ms
    → AllBefore (t + b.cooldown_ms) times
    → run (requests times) b ≡ record b { total_rejections = b.total_rejections + length times }
unfolding run allow_request
requests_rejected b t [] o at c h = ground arith
requests_rejected b t (now ∷ times) o at c h =
    let b1 : CircuitBreaker = record b { total_rejections = b.total_rejections + 1 } in
    let same : step (ask now) b ≡ b1 = ground (arith, h.0) in
    let rest = requests_rejected b1 t times o at c h.1 in ground (arith, same, rest)

-- A request to an open circuit, opened at a time after 0, goes through when the cooldown is over,
-- and its outcome decides: a success closes the circuit with no failures left, a failure opens it
-- again from that time on.
pub probe_decides :
    (b : CircuitBreaker) (t now later : ℕ)
    → b.state ≡ opened
    → b.opened_at ≡ some t
    → 0 < t
    → t + b.cooldown_ms ≤ now
    → ((allow_request now b).0 ≡ true)
      × ((run (ask now ∷ succeed ∷ []) b).state ≡ closed)
      × ((run (ask now ∷ succeed ∷ []) b).consecutive_failures ≡ 0)
      × ((run (ask now ∷ fail later ∷ []) b).state ≡ opened)
      × ((run (ask now ∷ fail later ∷ []) b).opened_at ≡ some later)
unfolding run allow_request record_success record_failure
probe_decides b t now later o at pos over = ground arith
