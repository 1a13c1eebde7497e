-- ===== src/Lib.antt =====
-- paygate-mcp is a paying gateway for MCP servers: clients call tools with an API key, and the gate
-- decides each call, charges the key's credits and counts its use. The library models the path of a
-- paid call, in src/.
--
--   src/gate.ts            Gate, with Gate/Checks (the guards of `evaluate` and its private checks),
--                          Gate/Evaluate (`evaluate`), Gate/Topup (`checkAutoTopup`), Gate/Refund
--                          (`refund`), Gate/Batch (`evaluateBatch`), Gate/Listing
--                          (`filterToolsForKey`). Proofs: Gate/Guards and
--                          Gate/Usage (each guard), Gate/Settle, Gate/Admission, Gate/Verdict,
--                          Gate/Decision (`evaluate` as a whole),
--                          Gate/Budget (limits of spending and quotas), Gate/Undo (refunds),
--                          Gate/Batch/Scanned, Gate/Batch/Settled, Gate/Batch/Atomic,
--                          Gate/Batch/Whole (batches), Gate/Teamed and Gate/Served
--                          (the gate with the teams)
--   src/store.ts           Keys (`KeyStore`), Keys/Admin (creation, cloning, sanitizers),
--                          Keys/Admin/Edits (setters, import, export), Ip (`checkIpInList`, `matchCidr`,
--                          `ipToNumber`). Proofs: Keys/Credits, Keys/Lifecycle, Keys/Aliases,
--                          Keys/Admin/Named, Keys/Admin/Copied, Keys/Admin/Lengths, Keys/Admin/Bounded,
--                          Ip/Mask, Ip/Prefix, Ip/Trim
--   src/rate-limiter.ts    RateLimiter. Proofs: RateLimiter/History, RateLimiter/Window,
--                          RateLimiter/Window/Run, RateLimiter/Decisions
--   src/quota.ts           Quota, Calendar (UTC days and months). Proofs: Quota/Limits, Quota/Undo,
--                          Quota/History
--   src/groups.ts          Groups (`getKeyGroup`, `resolvePolicy`), Groups/Admin (creation, changes,
--                          assignments). Proofs: Groups/Sound, Groups/Run
--   src/plugin.ts          Plugins (the hooks that the gate asks)
--   src/meter.ts           Meter (`record`). Proofs: Meter/Bounds
--   src/types.ts           Types
--   src/circuit-breaker.ts CircuitBreaker. Proofs: CircuitBreaker/Transitions
--   src/concurrency-limiter.ts  Concurrency. Proofs: Concurrency/Slots
--   src/spend-caps.ts      SpendCaps. Proofs: SpendCaps/Caps
--   src/teams.ts           Teams. Proofs: Teams/Members, Teams/Members/Preserved, Teams/Members/Run,
--                          Teams/Limits, Teams/Spending, Teams/Saved
--   src/tool-deps.ts       ToolDeps, ToolDeps/Sort (`topologicalSort`). Proofs: ToolDeps/Search,
--                          ToolDeps/Reach, ToolDeps/Reversed, ToolDeps/Checks; of the sort:
--                          ToolDeps/Sort/Start and ToolDeps/Sort/Degrees (what it builds),
--                          ToolDeps/Sort/Relaxed and ToolDeps/Sort/Kahn (its loop),
--                          ToolDeps/Sort/Cycles, ToolDeps/Sort/Entries, ToolDeps/Sort/Sorted
--   src/credit-ledger.ts   Ledger. Proofs: Ledger/Refinement
--   src/server.ts          Server (the state), Server/Transfers (`handleTopUp`,
--                          `handleCreditTransfer`), Server/Reservations (the handlers that hold credits),
--                          Server/Schedules (scheduled actions). Proofs: Server/Keyed,
--                          Server/Transfers/Exact, Server/Reservations/Sums,
--                          Server/Reservations/Covered, Server/Reservations/Kept,
--                          Server/Reservations/Run, Server/Reservations/Spent,
--                          Server/Schedules/Executed, Server/Schedules/Rotated,
--                          Server/Schedules/Queued, Server/Schedules/Created
--
-- Base holds the shared helpers: Boolean tests, lists, the decimal texts of numbers, and `Dict`, a
-- JavaScript `Map` in insertion order. Tests runs the model on concrete inputs.
--
-- How the parts interact: `Gate` is a record of the key store, the limiter, the groups, the meter and
-- the configuration, and every operation takes the state and gives the new one, with its answer first.
-- `evaluate` asks the groups for a price and a policy, the store for the key, the limiter twice, the
-- store and the key's limits for its funds, the quota tracker and the team hook, in the order of the
-- source; when all agree it deducts, records and tops up. `Gate/Served` connects the gate to the teams
-- by the two hooks that src/server.ts sets: the check that may refuse a call, and the record of it. In
-- the source the record that the store returns is the one that it keeps, so a change of it is written
-- back under its key here.
--
-- Conventions: numbers are natural numbers, since the store keeps credits as non-negative integers, so
-- that `Math.max(0, a - b)` is subtraction. Times are milliseconds, the clock is an argument, and a
-- method reads it once. A text of a reason is a constructor with the numbers of the text. Loops run
-- over lists, but for those of src/tool-deps.ts: the searches have as fuel the number of edges, or of
-- tools, and one more, which ToolDeps/Search and ToolDeps/Reach prove to be enough, and the sort has
-- the number of tools, which ToolDeps/Sort/Kahn proves to be enough. An address is 32
-- bits and its arithmetic is modulo 2 ^ 32. Plugins and the random parts of key and team ids are
-- parameters, and so is the team check where the gate stands alone. A handler of src/server.ts is
-- modelled from where its request is authorised and parsed; `PayGateServer` in Server is the part of the
-- server's state that these handlers change, and shares its key store with the gate.
--
-- Not modelled: HTTP, files, Redis, webhooks and cryptography; tools with a name that every
-- JavaScript object inherits, such as `constructor`, for which the plain objects of prices in
-- src/gate.ts hold an inherited value (the tags of a key, which are such an object too, are
-- modelled with these names); the listing of keys by page, tag and namespace, and the registries
-- and reports beside a paid call.
pub mod Base
pub mod Calendar
pub mod RateLimiter
pub mod Types
pub mod Quota
pub mod Ip
pub mod Keys
pub mod Groups
pub mod Plugins
pub mod Meter
pub mod Ledger
pub mod Gate
pub mod CircuitBreaker
pub mod Concurrency
pub mod SpendCaps
pub mod ToolDeps
pub mod Teams
pub mod Server
pub mod Tests
