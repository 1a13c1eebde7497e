-- ===== src/Gate/Batch.antt =====
-- `evaluateBatch` of src/gate.ts: a batch of calls, all of which go through or none. The failed index
-- -1 is `none`.
pub mod Settled
pub mod Scanned
pub mod Atomic
pub mod Whole
use paygate_mcp.Base.{
  ℕ, zero, suc, ◌+◌, String, Bool, true, false, not, ◌&&◌, Option, none, some, List, [], ◌∷◌, ◌++◌,
  map, length, ltb, ◌==◌, or_else, is_nonempty, if◌then◌else◌,
}
use paygate_mcp.Base.Dict
use paygate_mcp.Base.Dict.{Dict}
use paygate_mcp.Base.Text.{given, tool_key}
use paygate_mcp.Types.{
  QuotaConfig, ApiKeyRecord, Reason, GateDecision, missing_api_key, api_key_expired,
  invalid_api_key, key_suspended, ip_not_allowed, tool_limited, batch_rejected, shadow,
}
use paygate_mcp.RateLimiter
use paygate_mcp.RateLimiter.{RateLimiter}
use paygate_mcp.Quota
use paygate_mcp.Groups.{ToolPricing}
use paygate_mcp.Keys.{KeyStore, get_key, is_expired, deduct_credits, check_ip}
use paygate_mcp.Gate.{
  Gate, GateConfig, Hooks, Request, Notice, credits_deducted, team_usage, notify, edit,
  get_tool_price, record_usage, credits_left,
}
use paygate_mcp.Gate.Checks.{
  Denial, denial, deny_if, ◌or_next◌, check_tool_acl, check_token, check_rate, check_funds,
  check_team, tool_limit,
}
use paygate_mcp.Gate.Topup.{check_auto_topup}

pub record BatchToolCall : Type 0 where
  pub name : String
  pub input_bytes : Option ℕ

pub record BatchGateResult : Type 0 where
  pub all_allowed : Bool
  pub total_credits : ℕ
  pub decisions : List GateDecision
  pub remaining_credits : ℕ
  pub reason : Option Reason
  pub failed_index : Option ℕ

pub record BatchRequest : Type 0 where
  pub api_key : Option String
  pub calls : List BatchToolCall
  pub client_ip : Option String
  pub token_tools : List String

-- What the loop over the calls has gathered.
pub record Scan : Type 0 where
  pub limiter : RateLimiter
  pub counts : Dict ℕ
  pub prices : List ℕ
  pub total : ℕ

-- The price of a call of a batch, for which no key is named.
abbrev pub call_price : Hooks → Gate → BatchToolCall → ℕ
call_price hooks g c = (get_tool_price hooks c.name c.input_bytes none g).0

abbrev batch_count : String → Scan → ℕ
batch_count tool s = or_else (Dict.get tool s.counts) 0 + 1

-- The window's calls and the batch's own against the limit of the tool.
unfoldable pub rate_of_call : String → ℕ → ℕ → BatchToolCall → Scan → Option Denial × Scan
rate_of_call key now limit c s =
    let n = batch_count c.name s in
    let (used, l) = RateLimiter.get_current_count (tool_key key c.name) now s.limiter in
    if ltb 0 limit
    then (
      deny_if (ltb limit (used + n)) (tool_limited c.name limit),
      record s { limiter = l; counts = Dict.set c.name n s.counts },
    )
    else (none, s)

unfoldable pub check_call :
    String
    → ℕ
    → List String
    → GateConfig
    → ApiKeyRecord
    → BatchToolCall
    → Scan
    → Option Denial × Scan
check_call key now tokens config r c s =
    elim (check_tool_acl r.allowed_tools r.denied_tools c.name or_next check_token tokens c.name) [
      | some d ↦ (some d, s)
      | none ↦ rate_of_call key now (tool_limit c.name config.tool_pricing) c s
    ]

-- A call that is denied in shadow mode adds its price to the list, but not to the total.
abbrev pub gathered : ℕ → Option Denial → Scan → Scan
gathered price none s = record s { prices = s.prices ++ price ∷ []; total = s.total + price }
gathered price (some d) s = record s { prices = s.prices ++ price ∷ [] }

-- The loop of step 4, up to the first denial, which comes with its index.
unfoldable pub scan :
    Hooks
    → String
    → ℕ
    → List String
    → ApiKeyRecord
    → Gate
    → ℕ
    → List BatchToolCall
    → Scan
    → Option (ℕ × Reason) × Scan
scan hooks key now tokens r g i [] s = (none, s)
scan hooks key now tokens r g i (c ∷ cs) s =
    let (d, s1) = check_call key now tokens g.config r c s in
    let rest = scan hooks key now tokens r g (suc i) cs (gathered (call_price hooks g c) d s1) in
    if g.config.shadow_mode
    then rest
    else (elim d [ none ↦ rest | some e ↦ (some (i, e.told), s1) ])

abbrev refused : ℕ → Reason → GateDecision
refused remaining reason = record {
  allowed = false;
  reason = some reason;
  credits_charged = 0;
  remaining_credits = remaining;
}

abbrev pub refuse_all : List BatchToolCall → Reason → ℕ → BatchGateResult
refuse_all calls reason remaining = record {
  all_allowed = false;
  total_credits = 0;
  decisions = map (λ c. refused remaining reason) calls;
  remaining_credits = remaining;
  reason = some reason;
  failed_index = some 0;
}

unfoldable pub refusals : ℕ → ℕ → ℕ → Reason → List BatchToolCall → List GateDecision
refusals j i remaining reason [] = []
refusals j i remaining reason (c ∷ cs) =
    refused remaining (if j == i then reason else batch_rejected)
    ∷ refusals (suc j) i remaining reason cs

abbrev pub refuse_at : List BatchToolCall → ℕ → Reason → ℕ → BatchGateResult
refuse_at calls i reason remaining = record {
  all_allowed = false;
  total_credits = 0;
  decisions = refusals 0 i remaining reason calls;
  remaining_credits = remaining;
  reason = some reason;
  failed_index = some i;
}

abbrev pub shadow_batch_result : List BatchToolCall → Reason → BatchGateResult
shadow_batch_result calls reason = record {
  all_allowed = true;
  total_credits = 0;
  decisions =
      map
        (λ c. record {
          allowed = true;
          reason = some reason;
          credits_charged = 0;
          remaining_credits = 0;
        })
        calls;
  remaining_credits = 0;
  reason = none;
  failed_index = none;
}

abbrev pub refuse_batch : Gate → List BatchToolCall → Reason → ℕ → BatchGateResult
refuse_batch g calls reason remaining =
    if g.config.shadow_mode
    then shadow_batch_result calls (shadow reason)
    else refuse_all calls reason remaining

unfoldable pub record_tools :
    String → ℕ → Dict ToolPricing → List BatchToolCall → RateLimiter → RateLimiter
record_tools key now pricing [] l = l
record_tools key now pricing (c ∷ cs) l = record_tools key now pricing cs (
    if ltb 0 (tool_limit c.name pricing)
    then RateLimiter.record_custom (tool_key key c.name) now l
    else l)

unfoldable pub record_calls : ℕ → String → ApiKeyRecord → List BatchToolCall → List ℕ → Gate → Gate
record_calls now key r (c ∷ cs) (p ∷ ps) g =
    record_calls now key r cs ps
      (record_usage now key r.name c.name p true none (some r.namespace) g)
record_calls now key r calls prices g = g

-- Step 10: the charge and the counters.
unfoldable pub charge_batch : Hooks → String → ℕ → ℕ → List BatchToolCall → Gate → Gate
charge_batch hooks key total now calls g =
    let paid = (deduct_credits key total now g.store).1 in
    let told = g.notices ++ credits_deducted key total ∷ [] in
    record g {
      store = edit key (Quota.record_batch (length calls) total now) paid;
      limiter =
          record_tools key now g.config.tool_pricing calls
            (RateLimiter.record_call key now g.limiter);
      notices = if hooks.has_team_recorder then told ++ team_usage key total ∷ [] else told;
    }

-- The rest of step 10. The prices are one for each call.
unfoldable pub allow_batch :
    Hooks
    → String
    → ℕ
    → ℕ
    → List BatchToolCall
    → List ℕ
    → ApiKeyRecord
    → Gate
    → BatchGateResult × Gate
allow_batch hooks key total now calls prices r g =
    let g1 = (check_auto_topup key now (charge_batch hooks key total now calls g)).1 in
    let remaining = credits_left key now g1.store in
    (
      record {
        all_allowed = true;
        total_credits = total;
        decisions =
            map
              (λ p. record {
                allowed = true;
                reason = none;
                credits_charged = p;
                remaining_credits = remaining;
              })
              prices;
        remaining_credits = remaining;
        reason = none;
        failed_index = none;
      },
      record_calls now key r calls prices g1,
    )

abbrev pub denial_of : Option Reason → Option Denial
denial_of none = none
denial_of (some reason) = some (denial reason)

-- Steps 5 to 9. In shadow mode all of them are made and none of them stops the batch.
unfoldable pub check_batch_usage :
    Hooks → String → ℕ → ℕ → ℕ → ApiKeyRecord → Gate → Option Denial × Gate
check_batch_usage hooks key total count now r g =
    let (rate, l) = check_rate key now g.limiter in
    let quota = denial_of (Quota.check_batch count total g.config.global_quota now r).0 in
    let s =
      edit key (λ r'. (Quota.check_batch count total g.config.global_quota now r').1) g.store in
    let early : Gate = record g { limiter = l } in
    let late : Gate = record g { limiter = l; store = s } in
    if g.config.shadow_mode then (none, late) else (elim rate [
      | some d ↦ (some d, early)
      | none ↦ elim (check_funds key total now r g.store) [
        | some d ↦ (some d, early)
        | none ↦ elim quota [ some d ↦ (some d, late) | none ↦ (check_team hooks key total, late) ]
      ]
    ])

abbrev pub start : Gate → Scan
start g = record { limiter = g.limiter; counts = []; prices = []; total = 0 }

-- Steps 4 to 10, for a usable key.
unfoldable pub evaluate_calls :
    Hooks → String → ℕ → BatchRequest → ApiKeyRecord → Gate → BatchGateResult × Gate
evaluate_calls hooks key now q r g =
    let (failed, s) = scan hooks key now q.token_tools r g 0 q.calls (start g) in
    let g1 : Gate = record g { limiter = s.limiter } in
    let (stopped, g2) = check_batch_usage hooks key s.total (length q.calls) now r g1 in
    elim failed [
      | some (i, reason) ↦ (refuse_at q.calls i reason r.credits, g1)
      | none ↦ elim stopped [
        | some d ↦ (refuse_all q.calls d.told r.credits, g2)
        | none ↦ allow_batch hooks key s.total now q.calls s.prices r g2
      ]
    ]

abbrev ip_denied : Option String → String → ℕ → ApiKeyRecord → KeyStore → Option Reason
ip_denied none key now r s = none
ip_denied (some ip) key now r s =
    if is_nonempty r.ip_allowlist && not (check_ip key ip now s)
    then some (ip_not_allowed ip)
    else none

-- Steps 2b and 3.
unfoldable pub check_batch_key : BatchRequest → String → ℕ → ApiKeyRecord → KeyStore → Option Reason
check_batch_key q key now r s =
    if r.suspended then some key_suspended else ip_denied (given q.client_ip) key now r s

unfoldable pub evaluate_batch_key :
    Hooks → String → ℕ → BatchRequest → ApiKeyRecord → Gate → BatchGateResult × Gate
evaluate_batch_key hooks key now q r g = elim (check_batch_key q key now r g.store) [
  | some reason ↦ (refuse_batch g q.calls reason r.credits, g)
  | none ↦ evaluate_calls hooks key now q r g
]

abbrev pub evaluate_nonempty : Hooks → ℕ → BatchRequest → Gate → BatchGateResult × Gate
evaluate_nonempty hooks now q g = elim (given q.api_key) [
  | none ↦ (refuse_batch g q.calls missing_api_key 0, g)
  | some key ↦ elim (get_key key now g.store) [
    | none ↦ (
      refuse_batch g q.calls
          (if is_expired key now g.store then api_key_expired else invalid_api_key) 0,
      g,
    )
    | some r ↦ evaluate_batch_key hooks key now q r g
  ]
]

unfoldable pub evaluate_batch : Hooks → ℕ → BatchRequest → Gate → BatchGateResult × Gate
evaluate_batch hooks now q g = if is_nonempty q.calls then evaluate_nonempty hooks now q g else (
  record {
    all_allowed = true;
    total_credits = 0;
    decisions = [];
    remaining_credits = 0;
    reason = none;
    failed_index = none;
  },
  g,
)
