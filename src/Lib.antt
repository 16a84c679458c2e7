-- ===== src/Lib.antt =====
-- The correlation engine of mirador-rca: how an investigation turns metrics, logs, traces and the
-- service graph into a root cause with a confidence, anchors, a timeline and recommendations.
--
-- The parts and the files that model them (paths from the repository's root):
-- - Model: the records of internal/models, and the signal records of internal/repo/mirador_core.go.
-- - Extractors (Metrics, Logs, Traces): internal/extractors, the `Detect` method of each extractor.
-- - Engine.Anchors, Engine.Timeline, Engine.Topology, Engine.Confidence, Engine.Clamp and
--   Engine.Strings: the helpers of internal/engine/pipeline.go (`buildAnchors`, `buildTimeline`,
--   `neighborServices`, `appendTopologyEvents`, `computeConfidence`, `calibrateConfidence`, `clamp`,
--   `uniqueStrings`, `firstNonEmpty`).
-- - Engine.Causality: internal/engine/causality.go, `Evaluate`.
-- - Engine.Rules: internal/engine/recommend.go, `Recommend`; Engine.Rules.Loading is `NewRuleEngine`.
-- - Engine.Pipeline: internal/engine/pipeline.go, `Investigate` with `FetchSignals`, `Analyze`,
--   `fetchRecommendations` and `PersistResult`. A client is a record of actions on a state `W`, which
--   stands for all that lies outside the program, and an investigation is an action on that state; its
--   outcome is a value, an error or a panic. Engine.Pipeline.Assemble is the part of `Analyze` that
--   makes no calls.
-- - Service: the messages and their conversions (internal/api/handlers.go), the handlers
--   (internal/services/rca_service.go) and the counters (internal/metrics/metrics.go). A handler changes
--   the state of the service: what lies outside, the latencies and the metrics. Service.Concurrent is
--   `InvestigateIncident` as a step relation, for handlers that run at once; Service.Concurrent.Alone is
--   about its runs without interruption.
-- - Config: internal/config/config.go, the defaults and `applyEnvOverrides`; Config.Loading is `Load`.
--   `time.ParseDuration`, the environment, reading files and decoding YAML are parameters.
-- - Core: internal/repo/mirador_core.go, the four fetches, over requests that are actions on the state;
--   Core.Http fills those in with JSON over HTTP, `resolvePath` and `postJSON`, where `url.Parse`, sending
--   and the bytes of JSON are parameters. Http is what both repositories share of a request.
-- - MockCore: deployment/localdev/mock-core/main.go, the mock of mirador-core for local development.
-- - Server: internal/api/server.go, the server of gRPC, whose library is a parameter; `Shutdown` is a step
--   relation, with the goroutine that it starts and the two cases of its select.
-- - Entry: cmd/rca-engine/main.go, from the settings to a service that serves: the fallback of the cache,
--   the wiring, and every exit. Connecting to the cache, registering metrics and listening are parameters.
--   Entry.Serving goes on to the end of the program as a step relation, in which clients, a signal, the
--   servers, the timer and `main` take turns in any order; Entry.Ending and Entry.Program are about its runs.
-- - Utils: internal/utils, the text of an error, the parsing of times, minutes between two times and the
--   level of the logger. Files is what `os.ReadFile` answers.
-- - Weaviate: internal/repo/weaviate_repo.go. Weaviate.Queries are the GraphQL texts and the keys of the
--   cache, Weaviate.Properties what is stored, Weaviate.Records how rows are read, Weaviate.Synthetic the
--   answers without a store; Weaviate.Writing, Weaviate.Asking and Weaviate.Listing are the operations,
--   and Weaviate.Client the interfaces that they fill. HTTP, the bytes of JSON, the printing of times and
--   the coding of what is cached are parameters (`Outside`). Json is what it uses of encoding/json.
-- - Cache.Provider: internal/cache/provider.go, what the repositories need of a cache.
-- - Miner: internal/patterns/miner.go, `Mine`. A map is the list of its entries.
-- - Cache.Resp and Cache.Valkey: internal/cache/valkey.go, the protocol with its writer and its reader,
--   and the provider: `withConn` with its retries, `bootstrap`, `Get`, `Set`, `SetNX`, `Del`.
--   Cache.Valkey.Served is what a server of the protocol does with the bytes, where what a command does
--   is a parameter, and Cache.Valkey.Mapping says what the provider then is to its callers.
-- - Latency: internal/utils/latency.go, the tracker of recent latencies.
-- - Prelude, Runtime, Double: what the files share. A definition has the name of its Go function in
--   lower case with underscores; a loop is a function by recursion on the list it ranges over, so
--   fuel is needed in two places only: the retries, whose bound is that of the loop, and the digits of
--   a number, whose bound is the number. A client that follows pages has fuel too, and a theorem that
--   says how much is enough.
--
-- What is taken as a parameter: the floating point operations (Double, with the laws of order and
-- sign that the theorems use; NaN and infinities are values of the type, and no law of exact
-- arithmetic is used), the order of equal elements after `sort.Slice` and the order of ranging over a
-- map (Runtime), the clients, and what the clock says. Double.Fixed and `Runtime.in_order` are
-- instances that keep the laws, for the examples in Tests.
--
-- A time is a whole number of nanoseconds without bound: the offset of half a second cannot wrap for
-- a time that Go can hold and print, and a difference of times is that of the numbers, where `Sub` stops
-- at some 292 years. Counts are integers without bound. Case folding of texts is
-- that of ASCII letters.
--
-- Not modelled: logging, the contexts of calls and their deadlines; of internal/api/server.go what is
-- registered with the library's server beside the service; of the cache's client, sockets, the handshake
-- of TLS, the deadlines of a connection, and the panic of `make` where a server announces a reply larger
-- than memory can hold, which is taken for a connection that ends.
pub mod Prelude
pub mod Runtime
pub mod Double
pub mod Latency
pub mod Model
pub mod Extractors
pub mod Engine
pub mod Cache
pub mod Json
pub mod Http
pub mod Files
pub mod Utils
pub mod Miner
pub mod Weaviate
pub mod Service
pub mod Config
pub mod Core
pub mod MockCore
pub mod Entry
pub mod Server
pub mod Tests
