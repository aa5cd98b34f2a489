-- ===== src/Lib.antt =====
-- The verification library of Arivion: the agent service of the quant lab
-- (netrunner quant lab/apps/agent/src), which spends its users' credit on model calls, checks the
-- plans of an agent before they run, and manages the positions that they open. Paths below are from
-- that directory.
--
-- Parts, and the modules that model them:
--
-- Credit: llm-gateway. Credit.Types (types.ts), Credit.Meter (creditMeter.ts), Credit.Db (db.ts and
-- the tables of apps/api/migrations/0014_agent_credits.sql), Credit.Ledger (creditLedger.ts:
-- ensureAccount, recordGrant), Credit.Reservation (reservation.ts: reserve, finalize, release),
-- Credit.Gateway (index.ts: complete; keyVault.ts, usageRecorder.ts), Credit.Embedding (index.ts: quote,
-- embedText). A transaction is a function
-- from the tables to a result and the tables, and withTransaction drops what a throw leaves. Each
-- statement is a function with the name of what it does; a unique index refuses a second row.
-- Credit.Request and Credit.Calls are histories of calls: each call is one transaction or two that
-- lock the owner's row, so a history is a list. The proofs: Credit.Moves names the few ways in
-- which a call can change the tables, Credit.Refine and Credit.Committed show that every call is made of them, and
-- Credit.Books, Credit.Settled, Credit.Effects, Credit.Completion and the others follow.
--
-- Exit: positions/exitPolicy.ts. Exit.Policy has the policy and its validation, Exit.Evaluate has
-- evaluateExit in the order of the source. Doubles are the record Exit.Real.Real: a type with
-- arithmetic and `<=`, of which the theorems assume the total order only.
--
-- Guard: guardrails/index.ts, over orchestrator/plan.ts, playbooks/registry.ts and
-- playbooks/toolClasses.ts. Guard.Validate is validatePlan with every rule; it calls the validation
-- of Exit.Policy. The resolver of a tool's parameters is an argument.
--
-- Risk: risk/index.ts. Risk.Breakers has the pure breakers, Risk.Status the risk columns of
-- agent_owner_settings with the functions that read, write and refresh them; each Date.now() and
-- the result of the query for closed positions is an argument.
--
-- Backfill: apps/api/src/lib/backfillQueue.ts, the rows of the queue, the worker's handler and the
-- schedules. Backfill.Once is about two passes over the schedules, Backfill.Jobs about a job.
--
-- Budget: budget/index.ts, the caps of a day on runs and live sessions.
--
-- Backoff: mcp/backoff.ts, the retries of tool calls. The fuel of its loop is one more than the
-- retries; that it is enough is part of the theorem.
--
-- Bus: chat/bus.ts, the events of runs and their subscribers, as actions on one state.
--
-- Coverage: apps/api/src of the quant lab. Coverage.Interval (lib/interval.ts) and Coverage.Scan
-- (lib/gapScanner.ts: scanCoverage) find the missing bars of a window; Coverage.Buckets and
-- Coverage.Gate (index.ts: missingRangesFromBuckets, bucketedCoverage, computeCoverageProof,
-- coverageRequirementsMet) find which buckets of each source have rows, and whether they meet the
-- requirements of a mode. The rows that a query finds are arguments. Coverage.Ranges and
-- Coverage.Counts have the lemmas, Coverage.RoundTrip, Coverage.Windows and Coverage.Full the
-- theorems.
--
-- Grid: index.ts of apps/api/src (generateGridCandidates), the values of the keys and the
-- odometer over them; Grid.Enumerate has the theorem.
--
-- Prices: llm-gateway/priceBook.ts and the catalogue of llm-gateway/modelCatalog.ts, over the rows of
-- the price table; Prices.Catalog relates the catalogue to the price that a call is charged.
-- Prices.Preferences is the rest of modelCatalog.ts, Prices.Defaults is about the first read.
--
-- Run: orchestrator/runner.ts. Run.Runner is executePlan with its stop conditions; it asks Guard for
-- the verdict on the plan. Run.Store has the rows of chat/store.ts and agent_approvals that it reads
-- and writes, and the list of the tool calls made; what a tool replies is a function of the calls so
-- far and of the step. Run.Json and Run.Honesty are mcp/normalize.ts and the honesty fields of the
-- runner; `collect` carries the levels of nesting that are left, 9 as in the source. The proofs: Run.Calls
-- follows the loop, Run.Cleared, Run.Approvals and Run.Resume draw from it.
--
-- Position: positions. Position.Store (store.ts), Position.Plans (plans.ts), Position.Open (open.ts:
-- openManagedPosition, which runs its plan through Run and counts it in Budget) and Position.Monitor
-- and Position.Sweep (monitor.ts: evaluateIntent, which calls Exit for the decision, Run for the exit and Risk for the
-- refresh). A table is a row for each id. Position.Steps has the steps of ticks that interleave, each
-- with the store's own operation; Position.States, Position.Race and Position.Lifecycle are about
-- them, and Position.Ticks and Position.Sweeps lead from evaluateIntent and the sweep to them.
--
-- Trigger: triggers/evaluator.ts and triggers/reviewPlan.ts, with what of settings/index.ts they
-- read. Trigger.Evaluate calls Risk and Budget, and hands the plans of Trigger.Review to Run. One
-- evaluation is one step of the model; the source awaits between its queries and its inserts and takes
-- no lock, so evaluations that overlap are not modelled.
--
-- Examples: runs of the program to which the theorems are applied.
--
-- Amounts, token counts and times are naturals, amounts that a caller can give negative are
-- integers; they stay far below 2^53 in the source, whose numbers are doubles, and the model does not
-- bound them. Two loops run on fuel, those of withBackoff (one more than the retries) and of scanCoverage
-- (one more than the expected bars), and the theorems show that it is enough; all else is structural.
--
-- Not modelled: the providers' replies, the active price row and fresh uuids (arguments of complete;
-- Prices has the query for the row);
-- columns that no modelled code reads (run and step ids, times, metadata); the
-- texts of messages and reasons; a playbook id that names a property of Object.prototype, for which
-- the source throws; the parameters with which a tool is called, the truth card of a run; a database that fails, but for the audit event of a closed position; the timers and the
-- subscriber that drive the monitor and the triggers; the chat, memory and market services, the rest
-- of the API service and the web pages around them.
pub mod Prelude
pub mod Credit
pub mod Exit
pub mod Grid
pub mod Guard
pub mod Prices
pub mod Risk
pub mod Backoff
pub mod Backfill
pub mod Budget
pub mod Bus
pub mod Coverage
pub mod Position
pub mod Run
pub mod Trigger
pub mod Examples
