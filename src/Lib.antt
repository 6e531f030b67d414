-- ===== src/Lib.antt =====
-- NeuroDegen: an agent that watches the market, lets a committee of language models propose a trade,
-- and executes it on BSC under a risk manager. This library models the parts that decide: what may
-- trade, how much, in which order the outside calls come, and what is counted and kept meanwhile.
--
-- How the parts interact. `Perception` turns metrics into a regime and decides on paid data.
-- `Cognition` takes the analysts' answers to a recommendation: the dissent between the analysts, the
-- safety rails on the risk classifier's answer, the final action and its size, and the numbering of the
-- session. `Executor` runs the nine checks of `Precheck`, the last of which is `Risk.can_act`, and then
-- commits the reasoning, swaps, reveals and records. `Probe` is the daily compliance trade, `Tracker`
-- brings the stored positions in line with the wallet. `Llm` routes, meters and caches the model calls,
-- `Twak` is the wallet behind the swaps and the portfolio. `Cmc` buys the market's data at the CMC hub
-- and pays for a call through a hook; `Perception.Ingester` asks it for data, and for a security check
-- where the gate lets it, and `Perception.Normalizer` turns the answers into the events that the
-- aggregator reads and that `Perception.ColdStorage` writes to the database in batches. `Loop` starts
-- and stops the agent, and its timers run the cycles and the evaluations of the regime. `Telegram`
-- tells the operator of what happens, `Registration` enters the competition and `Commerce` hands a
-- session in as a paid job. `Skill` is the committee as a package of its own, without the network.
--
-- Which file models which part:
--   Types         src/types/execution.ts, src/types/cognition.ts, src/types/mandate.ts
--   Risk          src/lib/services/execution/riskManager.ts, src/config/risk.ts: classifyDrawdownTier is
--                 `classify_drawdown_tier`, RiskManager.canAct is `can_act` (with its parts `at_tier`,
--                 `can_trade`, `can_close` and `can_open`), updateDrawdownFromValue and
--                 applyExecutionResult keep their names
--   Allowlist     src/lib/utils/allowedTokens.ts: setAllowedTokens, isAllowedTokenSymbol,
--                 loadAllowlistFromEnv
--   Services      what the execution side calls: an answer for each call, given the calls before it
--   Precheck      src/lib/services/execution/preExecutionChecker.ts: runChecks is `run_checks`
--   Executor      src/lib/services/execution/twakExecutor.ts: execute, executeOpen and executeClose
--   Probe         src/lib/services/execution/probeTradeScheduler.ts, with the probe gate of runCycle in
--                 src/lib/services/agentLoop.ts, `probe_gate`
--   Tracker       src/lib/services/execution/positionTracker.ts: reconcileOnce is `reconcile_once`
--   Cycle         runCycle of src/lib/services/agentLoop.ts, from the read of the portfolio to the
--                 executor, `run_cycle`; what it begins after an execution is `follow_up` in
--                 Aftermath
--   Loop          the controller of src/lib/services/agentLoop.ts: start, stop, the timers with their
--                 guards and evaluateRegime, as steps of a controller; the loop's security data on its
--                 way to the checks in Screening
--   Cognition     src/lib/services/cognition: dissentTracker.ts in Dissent, enforceSafetyRails of
--                 riskClassifier.ts in Rails, deriveFinalAction of sessionGraphBuilder.ts in FinalAction,
--                 committeeSession.ts in Committee
--   Perception    src/lib/services/perception/regimeClassifier.ts with src/config/regime.ts in Regime,
--                 src/lib/services/perception/evGate.ts in EvGate, src/lib/stores/hotState.ts in
--                 HotState, src/lib/services/perception/aggregatorService.ts in Aggregator,
--                 src/lib/services/perception/eventNormalizer.ts in Normalizer,
--                 src/lib/services/perception/cmcIngester.ts in Ingester,
--                 src/lib/services/perception/coldStorageWriter.ts in ColdStorage
--   Cmc           src/lib/clients/cmcHubClient.ts: callMcp is `call_mcp` in Exchange,
--                 validatePaymentRequirement is in Payment; src/lib/utils/cmcIds.ts in Ids
--   Llm           src/lib/clients/llm: spendTracker.ts in Spend, promptCache.ts in PromptCache,
--                 router.ts in Router
--   Twak          src/lib/clients/twakClient.ts: runTwak is `run_twak`, a fold over what the process and the
--                 timer do; syntheticTxHash in Hash, getPortfolio in Portfolio, executeSwap and payX402
--                 in Swap
--   Telegram      src/lib/services/telegramAlerter.ts: onEvent and the handlers in Alerter, notifyBoot in
--                 Boot, with the specification in Spec; src/lib/clients/telegramClient.ts in Client
--   Registration  src/lib/services/competitionRegistration.ts
--   Commerce      src/lib/services/agenticCommerce.ts: runCommerceJobForSession is
--                 `run_commerce_job_for_session`
--   Skill         skills/neurodegen-committee/src: runCommittee is `run_committee` in Committee, with its
--                 parts in Dissent, Regime, Sizing and Candidate
--   Canonical     src/lib/utils/canonicalSerialize.ts: canonicalize
--   Common        shared helpers; Tests  runs on concrete inputs
--
-- Numbers. A JavaScript `number` that is an amount, a price or a share is an element of any `Number`,
-- an interface of the operations that the code uses; a proof that needs an order takes its laws,
-- `IsOrdered`, which hold for doubles with NaN (no law says that x is at most x). `Common.Fixed` is a
-- concrete `Number` that meets them. Counts, days and times in milliseconds are natural numbers.
--
-- Calls. Code that awaits outside services takes the list of the calls made so far, newest first, and
-- returns the longer list; what a service answers is an arbitrary function of that list, so that a
-- statement about all services is about every answer and every failure.
--
-- Bounds. The loop that numbers a session has the code's own five attempts as its fuel; the theorem
-- about it shows that it always ends with a session. The prompt cache holds 256 entries. A message is
-- cut into chunks with its length as fuel, since a chunk takes at least one character; a post has the
-- code's own retries as its fuel.
--
-- Not modelled: HTTP and chain clients but for the above, database queries, the writing of rows,
-- prompts and the parsing of model answers, rendering, the scripts and the contracts. The zod schemas
-- stand as functions on JSON values. Texts that interpolate values are constructors that carry the
-- values.
pub mod Common
pub mod Types
pub mod Registration
pub mod Risk
pub mod Allowlist
pub mod Services
pub mod Precheck
pub mod Executor
pub mod Probe
pub mod Skill
pub mod Telegram
pub mod Tracker
pub mod Cognition
pub mod Perception
pub mod Llm
pub mod Canonical
pub mod Cmc
pub mod Commerce
pub mod Cycle
pub mod Loop
pub mod Twak
pub mod Tests
