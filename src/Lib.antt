-- ===== src/Lib.antt =====
-- A model of the SDKs of ConfigDirector for JavaScript, and what is proved of it.
--
-- The SDKs serve config values to an application. On a server the targeting rules of each config
-- are evaluated for a context (packages/config-evaluator). A stream of server-sent events
-- (packages/eventsource) brings the updates. A config's value, which the wire carries as a text,
-- is read as the type of the default value that the application gives, and what happened is
-- queued for telemetry (packages/shared).
--
-- Common holds the shared names: tests on numbers, lists over native numbers, and JavaScript
-- strings as lists of UTF-16 code units, and the signed words that JavaScript's operators on bits
-- work with.
--
-- EventSource is packages/eventsource/src. Parser is `EventSourceParser`, whose callbacks are the
-- list of their calls, and Client is `EventSourceClient`: each promise, timer and call of a user
-- is an input of `step`, a request that fails with its number, which the program does not look
-- at, and `calls` records the requests and the callbacks, which may close or connect the client
-- in turn. Errors thrown by callbacks and delays that are no whole milliseconds are left out.
--
-- Evaluator is packages/config-evaluator/src. Value, Compare, Pointer, Condition, Segment and
-- Rollout are its files render.ts, *-comparison.ts, json-pointer.ts, ConditionEvaluator.ts,
-- SegmentEvaluator.ts and the rollout of ConfigEvaluator.ts with percent-hashing.ts. Types, Rule
-- and Walk are types.ts, `explainRule` and `explain`. A computation that may throw is `Fallible`.
-- The packages rapidhash-js, luxon and semver, and the double-precision numbers, are the record
-- `Externals`, over which every definition is stated: theorems that rest on an order of numbers
-- have it as a hypothesis about the numbers that a predicate names, which finite ones are. Rules
-- and conditions hold the properties of each of their types. An attribute of an object is an own
-- member: a segment whose id is the name of a member that every JavaScript object inherits is not
-- modelled, nor are the warning for a rule that throws and the check of the logger.
--
-- ConfigValue is packages/shared/src/value-parser.ts, over the record `Parsing` for `Number` and
-- `JSON.parse`. Telemetry holds EventQueue, TrackedEvents, InvalidContexts, Aggregation,
-- Collector and LimitedMap, the files EventQueue.ts, TrackedEventQueue.ts,
-- InvalidContextSubmissions.ts, EventAggregator.ts and TelemetryEventCollector.ts of
-- packages/shared/src/telemetry and LimitedMap.ts of packages/shared/src, and Utf8, which is
-- utf8-byte-length.ts there and the encoder of packages/react-native-sdk/src/utf8Encoder.ts;
-- ValueId is base62-encoder.ts and value-id.ts of packages/shared/src with
-- packages/js-server-sdk/src/telemetry/value-id-generator.ts, over the digest as a parameter.
-- ContextKind is packages/shared/src/context-kind.ts. Limits are natural numbers, and times are
-- given to the operations that read the clock.
--
-- Client is packages/js-client-core/src. Its class `DefaultConfigDirectorClient` is the record of
-- State with the operations of Evaluating (reading a config and calling the handlers of `watch`)
-- and Handling (sets of configs, cached values, contexts and connections); Steps makes them the
-- steps of a machine. What the client does to its collaborators is the list `outputs`, and what
-- the handlers of an application call in turn is the record `Reactions`. The arrays of handlers
-- stand in a store, since the client loops over an array that a handler may change. CachedValues,
-- CachedEntry and CachedStore are cached-values.ts, Plan is connection-plan.ts with
-- `planCaching`, Emitter is Emitter.ts with clientHandlers.ts, where `apply` makes a list of
-- arguments of a payload, or throws, by a parameter. Session is client-session.ts, whose launch
-- is a machine over the ends of its read and its write and its deadline, Polling is
-- PollingTransport.ts with the two files of packages/shared/src/transport, and Offline is
-- OfflineTransport.ts with the native-values.ts of packages/js-client-core/src and
-- packages/shared/src. A part of an asynchronous method up to an `await`, and after it, is an
-- operation of its own, so that any order of them is a list of steps. Server is
-- packages/js-server-sdk/src/DefaultConfigDirectorClient.ts: its bundles of configs and segments,
-- the keys that it reports, and its evaluation, which is the evaluator's value read by the
-- parser. An object is the list of its own members, in the order in which they were added.
--
-- The hexadecimal digits of a number are written on a fuel that is the number itself, which has
-- no more digits, and the loop of `toBase62` runs on a fuel of one step for each hexadecimal
-- digit, of which a number has no fewer than digits in base 62; every other function recurses on
-- its data. Not modelled are the streaming transport of packages/js-client-core, the transports
-- of packages/js-server-sdk, the reporting of telemetry, and the bindings to frameworks. Handlers
-- that throw, the logger, and the timer that ends the wait for a connection are left out.
pub mod Common
pub mod EventSource
pub mod Evaluator
pub mod ConfigValue
pub mod Telemetry
pub mod ContextKind
pub mod Client
pub mod Server
