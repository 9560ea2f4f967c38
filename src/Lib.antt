-- ===== src/Lib.antt =====
-- The reply path and the monitoring of the LINE worker (apps/worker): how an inbound message becomes
-- at most one reply, and how the worker judges and repairs itself.
--
-- An inbound event passes a fixed row of gates (pipeline/process-inbound.ts): the sender allowlist,
-- the claim on the message, the rule match, the state of the job, the claims on the reply and on the
-- room, and the rate limit. An event that clears them all marks its job as dispatched and sends one
-- command. The gates keep their state in three kinds of store, all of them on the same bounded map
-- whose entries expire. Beside the path stand the lanes that a send takes, the queue that writes
-- behind it, the readiness machine, the alerts, the recovery planner and the topology of the
-- shards.
--
-- Files and the sources that they model, below apps/worker/src unless a path says otherwise:
--   Prelude      lists, options, Boolean tests, text as UTF-16 code units, a JavaScript Map as an
--                association list in insertion order, integers
--   Store        lib/bounded-ttl-map.ts: BoundedTtlMap
--   AsyncQueue   lib/async-queue.ts: AsyncQueue
--   Claims       core/dedupe/claim-store.ts and claims.ts: claimKey, ClaimStore, Claims
--   Jobs         core/jobs/job-key.ts and job-registry.ts, packages/contracts/src/job.ts:
--                deriveJobKey, JobRegistry, the table ALLOWED
--   RateLimit    core/ratelimit/limiter.ts: RateLimiter
--   Rules        core/rules: compileRules, match, normalizeText
--   Allowlist    core/allowlist.ts: ALLOW_ANY_SENDER, IdSenderAllowlist
--   Pipeline     pipeline/process-inbound.ts, core/core.ts, the events and commands of
--                adapters/types.ts: processInbound, evaluate, dispatch, report
--   Readiness    readiness/state.ts: ReadinessFsm
--   Recovery     monitoring/recovery.ts: RecoveryPlanner
--   Alerts       monitoring/alerts.ts: AlertEvaluator, all but the numbers and texts that it shows
--   Topology     sharding/topology.ts: validateTopology, ShardTopology
--   Lane         transport/lane.ts: Lane
--   LanePool     transport/lane-pool.ts: LanePool, without the requests that it carries
--   Racing       adapters/racing.ts: RacingInboundAdapter
--   WarmupGate   bots/connection-warmup-gate.ts: BoundedConnectionWarmupGate
--   Metrics      metrics/ring.ts and recorder.ts: LatencyRing, MetricsRecorder
--   Experiments  experiments/prepared-slot.ts and registry.ts: PreparedSlot, ExperimentRegistry
--   Users        admin/users-store.ts: UsersStore
--   Bots         bots/bot-registry.ts: BotRegistry
--   LoginFlow    admin/login-flow.ts: LoginFlow
--   WriteBehind  persistence/write-behind.ts: WriteBehindQueue
--
-- An operation takes the state and returns the new one; a getter that deletes an expired entry
-- returns the map as well. The clock is an argument: each call takes its reading, and one event is
-- processed at one reading of the wall clock. Times and counts are whole numbers without a bound,
-- where the source has doubles, which the monotonic clock may give fractions of a millisecond. An operation that throws returns the error, with the
-- state it leaves where it has changed some. The refill rate is a fraction, and tokens are counted in
-- units of 1 / (1000 * refill_den); the rates and factors of the alerts are fractions as well, so that the arithmetic is exact where the source rounds. What
-- `String.prototype.normalize` and `toLowerCase` do is a parameter of the rules. The transport's
-- answer to a send is an argument of the pipeline. The one fuel is that of Readiness.advance_toward:
-- five steps, the length of the ladder, which bounds the recursion of the source.
--
-- Left out: log lines and traces, the LINE adapter and the vendored protocol
-- library, the admin server, configuration, authentication, the stores behind the
-- write-behind queue, the verdict on an experiment, the worker
-- runtime with its timers, the command line and the release tools.
pub mod Prelude
pub mod Alerts
pub mod Allowlist
pub mod AsyncQueue
pub mod Bots
pub mod Claims
pub mod Experiments
pub mod Jobs
pub mod Lane
pub mod LanePool
pub mod LoginFlow
pub mod Metrics
pub mod Pipeline
pub mod Racing
pub mod RateLimit
pub mod Readiness
pub mod Recovery
pub mod Rules
pub mod Store
pub mod Topology
pub mod Users
pub mod WarmupGate
pub mod WriteBehind
