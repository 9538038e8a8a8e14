-- ===== src/Lib.antt =====
-- Verification library for BACKit on Stellar: models of parts of its NestJS backend
-- (packages/backend/src), with theorems about them.
--
-- The parts and how they interact
--
-- * Idempotency (packages/backend/src/idempotency). A client sends a POST with an Idempotency-Key.
--   The interceptor validates the key, claims it in a table, runs the handler, and stores the
--   result, which later requests with the same key and body get instead of another run.
--     Idempotency.antt             idempotency-record.entity.ts, idempotency.events.ts, and of
--                                  idempotency.service.ts: claimOrReplay (claim_or_replay), complete
--                                  (complete_with), fail, cleanupExpired (cleanup_expired)
--     Idempotency/Sanitise         sanitise, and complete with it
--     Idempotency/Interceptor      intercept of idempotency.interceptor.ts, cut where other requests
--                                  can come between: begin, up to the handler, and settle, with what
--                                  the handler gave; extractErrorInfo (extract_error_info)
--     Idempotency/Lifecycle, Traces, Traces/Bound, Interceptor/Replays: proofs
-- * Dead letters (packages/backend/src/common/queues). A job whose last attempt failed becomes an
--   entry of a queue that nothing processes. Operators list the entries and replay or dismiss them;
--   a nightly task removes old decided ones.
--     DeadLetter.antt              queues.constants.ts
--     DeadLetter/Schema            dead-letter-schema.ts
--     DeadLetter/Redaction         dead-letter-redaction.ts
--     DeadLetter/Classify          dead-letter-classification.enum.ts
--     DeadLetter/Entry             of dead-letter.service.ts: the types, normalizeEntry,
--                                  isFinalAttempt, and the payload that moveToDeadLetter builds
--     DeadLetter/Move              moveToDeadLetter
--     DeadLetter/Queue             what the service uses of BullMQ
--     DeadLetter/Replay            replayEntry, doReplay, recordReplayFailure, dismissEntry, getEntry
--     DeadLetter/Listing           listEntries
--     DeadLetter/Cleanup           cleanupExpiredEntries
--     DeadLetter/Metrics           emitDepthMetrics
--     DeadLetter/Redaction/*, Replay/*, Listing/*, Cleanup/*, Metrics/*, Queue/Unique: proofs
-- * Event store (packages/backend/src/event-store). EventStore.antt models append, replayAggregate,
--   findLatestSnapshot and maybeSnapshot of event-store.service.ts; EventStore/Snapshots and
--   EventStore/Appends are proofs.
-- * Retry (packages/backend/src/utils/retry.ts). Retry.antt models retryWithBackoff and
--   rxjsRetryWithBackoff; Retry/Backoff is proofs.
-- * Payouts (packages/backend/src/payouts). Payouts.antt models upsertPendingClaim, markClaimed and
--   markFailed of payouts.service.ts; Payouts/Claims is proofs.
-- * Oracle (packages/backend/src/oracle). A call is created, reported by users, paused at the fifth
--   report, resolved by the oracle at an observed price, or by an administrator.
--     Oracle/Calls                 oracle-call.entity.ts, oracle-outcome.entity.ts, signOutcome of
--                                  signing.service.ts (without its health log), and what the
--                                  service computes from one call: evaluateOutcome, the columns
--                                  that create, a report and a forced resolution write
--     Oracle.antt                  of oracle.service.ts: createOracleCall, getMarketStatus,
--                                  recordReport, unpauseCall, adminResolveCall
--     Oracle/Resolution            resolveMarket (resolve_market, with a function for each of its
--                                  parts)
--     Oracle/Prices                getAssetParams, fetchHorizonMidpoint, the test for a deviation
--     Oracle/Disputes              dispute-resolution.service.ts
--     Oracle/Deviation             deiviation.service.ts, coinGeko.service.ts, runCheck of
--                                  deviation.worker.ts; Oracle/Halts is proofs
--     Oracle/Lifecycle, Effects, Traces, Settled, Reports, Resolves: proofs
-- * Settings (packages/backend/src/config). One row of settings behind a cache, which events of the
--   chain and administrators change; the relay reads its contract there.
--     Settings.antt                config.service.ts, each operation as one step
--     Settings/Coherent, Contract: proofs, the second on the settings and the relay together
-- * Relay (packages/backend/src/relay/relay.service.ts). The relay pays the fee of a client's
--   transaction if all it does is to invoke the platform's contract; it also estimates fees and
--   tells what a transaction will do.
--     Relay.antt                   sponsorAndSubmit, validateTransaction
--     Relay/Fees                   estimateFee, getXlmUsdPrice, and a proof about them
--     Relay/Actions, Simulation    simulate: what it reads of a transaction and tells of it, and its
--                                  errors, fees and cache
--     Relay/Guard, Sponsored, Breakdowns: proofs
-- * Notifications (packages/backend/src/notifications). A notification is a row, shown in the
--   application or sent out by mail or webhook, as the user's preferences say; a job sends it.
--     Notifications/Preferences    notification-preferences.service.ts
--     Notifications.antt           of notifications.service.ts notify, createNotification,
--                                  getNotifications, markRead
--     Notifications/Dispatch       processPendingNotifications of
--                                  external-dispatcher/external-dispatcher.service.ts, process of
--                                  external-dispatcher/notifications.queue.processor.ts
--     Notifications/Closing        closing-soon.service.ts
--     Notifications/Enabled, Initialized, Updates, Once, Traces, Alerts, Obeys: proofs
-- * Webhooks (packages/backend/src/webhooks). Events become jobs, one for each subscription; the
--   processor posts each, at most 10 to a URL in a second, and logs each attempt.
--     Webhooks.antt                webhook.entity.ts; of webhook.service.ts subscribe, unsubscribe,
--                                  dispatchEvent, recordDelivery; process of
--                                  webhook-dispatch.processor.ts
--     Webhooks/Limiter             its UrlRateLimiter
--     Webhooks/Limiter/Window, Delivery, Process, Traces: proofs
-- * Reconciliation (packages/backend/src/reconciliation). A run fetches the events of a range of
--   ledgers, compares each with the tables of calls, stakes and payout claims (those of Payouts),
--   repairs them unless it is a dry run, and records each discrepancy.
--     Reconciliation.antt          the entities and what the events say
--     Reconciliation/Events        reconcileEvent and its four cases
--     Reconciliation/Run           fetchEventsForRange, recordDiscrepancy, the counters, the cache
--     Reconciliation/Execute       startRun, executeRun
--     Reconciliation/DryRun, DryRun/Whole, Counts, Lock, Repairs: proofs
-- * Firewall (packages/backend/src/firewall). Every request is tested against the white list, the
--   black list and the patterns of bots; a blocked one is logged.
--     Firewall/Block, Address      utils/ip-matcher.util.ts: blocks of addresses as numbers, and the
--                                  texts that they come from
--     Firewall.antt                firewall.service.ts
--     Firewall/Block/Prefix, Rules, Traces: proofs
--
-- The modules named Tests hold runs on concrete inputs and instances of the theorems.
--
-- How the code is represented
--
-- * A service is a record of its tables and of the events that it has emitted; an operation takes it
--   and gives it back with its result. The clock is an argument, in milliseconds, and a date is the
--   instant that it stands for. Log lines, response headers and the texts of messages are left out,
--   the messages being constructors with what they mention.
-- * Where an operation reads the clock several times, it is given one instant. Each operation is one
--   step: the interleavings are those of whole operations. An operation that waits in the source
--   between its read and its write could meet another in between; that is not modelled, except in the
--   idempotency interceptor and in reconciliation, where a start and the execution are apart.
-- * A string that the code only compares is a String; one that it measures or cuts is the list of its
--   UTF-16 code units. A double is its 64-bit pattern, on which isFinite, isNaN and comparison with 0
--   are computed. JSON values are the data types of Prelude/Json.
-- * Code outside the repository is a parameter with laws that state what it documents: TypeORM
--   repositories (Prelude/Repo, EventRepo, SnapshotRepo), BullMQ queues (DeadQueue, SourceQueues),
--   String.replace and RegExp.test, Number(text), and the digest of the request (the interceptor's
--   fingerprint, which also covers sortedKeys); for the oracle the arithmetic of doubles, Horizon, the
--   signature of a message, IPFS, the saves of an outcome and what the column of the final price keeps
--   (Doubles, Horizon, Outside); for webhooks the post, the payload with its HMAC and the save of a log; for reconciliation the cache (Cache), the event log and the RPC server (Chain); for the
--   firewall Node's net module and parseInt (Net); for the relay the Stellar SDK, the RPC server and
--   the cache manager (Sdk, World, Values, Cache). Prelude/Repo, Prelude/Rows and the Tests modules
--   have instances.
-- * A SERIALIZABLE transaction is one step, and one that the database aborts is left out. The methods
--   complete and fail read and write without one, and each is one step here too. Whether Redis grants
--   the lock of a replay, whether a write of the interceptor fails, whether compaction fails, whether
--   the log of blocked requests takes a row, and what the database serves of each event of a
--   reconciliation (Serving) are inputs. So is, for each attempt of a notification's job, whether the
--   sender throws and whether the updates of the row succeed (Attempt).
--
-- Loops and fuel
--
-- The scan of listEntries has the code's own bound of 20 windows. The loop of cleanupExpiredEntries
-- runs on fuel and gives none when that runs out: its source is an endless loop that always reads the
-- front of the queue and stops at a window that is not full, so a single round serves a short queue.
-- The loop of emitDepthMetrics runs on fuel; each round moves past at least one entry, so a round more
-- than there are entries serves. The loop of retryWithBackoff runs over the attempts; that of the RxJS
-- operator, for one subscription to a source of one value or error, has fuel for what its counter
-- leaves of the maximum, and for one if that is 0, since it calls before it compares.
--
-- Not modelled
--
-- The contracts (packages/contracts) and the user interface (packages/frontend) are in other
-- languages or are views. Of the backend, the indexer and the throttler
-- are not modelled, nor are the parts that are mostly database queries or glue: leaderboard,
-- analytics, search, bookmarks, comments, users, migrations and HTTP controllers. In
-- the modelled services the listings, which are queries of the database, are left out. Of the oracle,
-- fetchOraclePrice, getPriceSources and the health service are left out, of the
-- webhooks sendTestPing, and of the firewall the Turnstile guard and the error codes.
pub mod Prelude
pub mod Idempotency
pub mod DeadLetter
pub mod EventStore
pub mod Retry
pub mod Payouts
pub mod Oracle
pub mod Settings
pub mod Relay
pub mod Notifications
pub mod Webhooks
pub mod Reconciliation
pub mod Firewall
