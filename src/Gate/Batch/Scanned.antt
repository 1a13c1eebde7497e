-- ===== src/Gate/Batch/Scanned.antt =====
-- The loop of `evaluateBatch` of src/gate.ts over the calls of a batch.
use mathlib.Core.List.{append-nil, append_assoc}
use paygate_mcp.Base.{
  ℕ, suc, ◌+◌, String, ◌≡◌, sym, subst, ap, ◌∙◌, inl, inr, false, Option, none, some, List, [], ◌∷◌,
  ◌++◌, map, arith, Option-cases,
}
use paygate_mcp.Types.{ApiKeyRecord, Reason}
use paygate_mcp.Gate.{Gate, GateConfig, Hooks, edit, get_tool_price}
use paygate_mcp.Gate.Checks.{Denial}
use paygate_mcp.Gate.Batch.{
  BatchToolCall, BatchGateResult, BatchRequest, Scan, scan, gathered, start, check_call, call_price,
  check_batch_usage, allow_batch, evaluate_calls, evaluate_batch_key, evaluate_batch, refuse_all,
  refuse_at,
}

abbrev pub sum : List ℕ → ℕ
sum [] = 0
sum (n ∷ ns) = n + sum ns

sum-append : (ms ns : List ℕ) → sum (ms ++ ns) ≡ sum ms + sum ns
sum-append [] ns = omega arith
sum-append (m ∷ ms) ns = omega (arith, sum-append ms ns)

-- The price that the gate asks for a call.
abbrev pub asked : Hooks → Gate → BatchToolCall → ℕ
asked hooks g c = (get_tool_price hooks c.name c.input_bytes none g).0

-- The prices of a scan, and the total is their sum.
pub record IsGathered (ps : List ℕ) (s : Scan) : Type 0 where
  pub prices : s.prices ≡ ps
  pub total : sum s.prices ≡ s.total

check_call-prices :
    (key : String) (now : ℕ) (tokens : List String) (config : GateConfig) (r : ApiKeyRecord)
    (c : BatchToolCall) (s : Scan)
    → ((check_call key now tokens config r c s).1.prices ≡ s.prices)
      × ((check_call key now tokens config r c s).1.total ≡ s.total)
unfolding check_call paygate_mcp.Gate.Batch.rate_of_call
check_call-prices key now tokens config r c s = ground arith

module _ (hooks : Hooks) (key : String) (now : ℕ) (tokens : List String) (r : ApiKeyRecord)
    (g : Gate) (off : g.config.shadow_mode ≡ false) (i : ℕ) (c : BatchToolCall)
    (cs : List BatchToolCall) (s : Scan) where
  scan-passed :
      (check_call key now tokens g.config r c s).0 ≡ none
      → scan hooks key now tokens r g i (c ∷ cs) s
        ≡ scan hooks key now tokens r g
            (suc i)
            cs
            (gathered (call_price hooks g c) none (check_call key now tokens g.config r c s).1)
  unfolding scan
  scan-passed e = ground arith

  scan-denied :
      {d : Denial}
      → (check_call key now tokens g.config r c s).0 ≡ some d
      → (scan hooks key now tokens r g i (c ∷ cs) s).0 ≡ some (i, d.told)
  unfolding scan
  scan-denied e = ground arith

pub scan-IsGathered :
    (hooks : Hooks) (key : String) (now : ℕ) (tokens : List String) (r : ApiKeyRecord) (g : Gate)
    → g.config.shadow_mode ≡ false
    → (i : ℕ) (cs : List BatchToolCall) (ps : List ℕ) (s : Scan) → IsGathered ps s
    → (scan hooks key now tokens r g i cs s).0 ≡ none
    → IsGathered (ps ++ map (asked hooks g) cs) (scan hooks key now tokens r g i cs s).1
unfolding scan
scan-IsGathered hooks key now tokens r g off i [] ps s h e = rw (append-nil ps) h
scan-IsGathered hooks key now tokens r g off i (c ∷ cs) ps s h e =
    let result = check_call key now tokens g.config r c s in
    let same = check_call-prices key now tokens g.config r c s in
    elim (Option-cases result.0) [
      | inl passed ↦
          let price = call_price hooks g c in
          let step = scan-passed hooks key now tokens r g off i c cs s passed in
          let s1 : Scan = gathered price none result.1 in
          let h1 : IsGathered (ps ++ price ∷ []) s1 = record {
            prices = ap (λ ns. ns ++ price ∷ []) (same.0 ∙ h.prices);
            total = ground (arith, sum-append result.1.prices (price ∷ []), same, h.total);
          } in
          let rest =
            scan-IsGathered hooks key now tokens r g off (suc i) cs (ps ++ price ∷ []) s1 h1
              (ap (λ (x : Option (ℕ × Reason) × Scan). x.0) (sym step) ∙ e) in
          let moved = append_assoc ps (price ∷ []) (map (asked hooks g) cs) in
          subst
            (λ (x : Option (ℕ × Reason) × Scan).
              IsGathered (ps ++ map (asked hooks g) (c ∷ cs)) x.1)
            (sym step)
            (subst (λ ns. IsGathered ns (scan hooks key now tokens r g (suc i) cs s1).1) moved rest)
      | inr (d, denied) ↦ let stop = scan-denied hooks key now tokens r g off i c cs s denied in cc
    ]
