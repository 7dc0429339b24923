-- ===== src/Lib.antt =====
-- The MCP gateway: a proxy between agents and MCP backends that enforces information flow by labels
-- (DIFC: decentralised information flow control), launches backends, and limits their calls.
--
-- A tool call passes, in this order: the HMAC check of the HTTP front end (internal/server/hmac.go),
-- the session's budget for the tool (internal/server/unified.go), the coarse access check on the
-- agent's labels and the resource's (internal/difc/pipeline_decisions.go and evaluator.go), the
-- backend's circuit breaker (internal/server/circuit_breaker.go), a connection that the launcher keeps
-- (internal/launcher), the filter over the labelled response, and last the accumulation of the
-- response's labels into the agent (internal/difc/agent.go).
--
-- The modules, with the code that each is about:
--   Difc.TagSet, Difc.Label      internal/difc/tagset.go, labels.go: tags, sets of tags, labels
--   Difc.Flow                    internal/difc/flow_labels.go: CanFlowTo, CheckFlow, checkFlowHelper
--   Difc.Mode, Difc.Evaluator    internal/difc/evaluator.go: modes; Evaluate, FilterCollection
--   Difc.Violations              internal/difc/violations.go: the texts of the reasons
--   Difc.Resource                internal/difc/resource.go: labelled resources and collections
--   Difc.Agent, Difc.Registry    internal/difc/agent.go: AgentLabels, AgentRegistry
--   Difc.Pipeline                internal/difc/pipeline_decisions.go: the decisions between phases
--   Difc.PathLabels              internal/difc/path_labels.go: labels by JSON pointers
--   Difc.SinkServers             internal/difc/sink_server_ids.go, internal/util/collections.go
--   Guard, Guard.Pipeline        internal/guard/guard.go, noop.go, write_sink.go, pipeline.go: the
--                                interface of a guard, two guards, the phases of a guarded call
--   Guard.Payload, .Answer, .LabelAgent  internal/guard/wasm_payload.go, wasm_parse.go,
--                                label_agent.go: how a guard sets the labels of an agent
--   Server.GuardSetup            internal/server/guard_init.go, guard_visibility.go: the policy and the
--                                visibility that a server's guard gets
--   Server.Tool                  internal/server/unified.go: callBackendTool, all phases in order
--   Syncutil.MapCache, .TtlCache internal/syncutil/cache.go, ttl_cache.go
--   Server.CircuitBreaker        internal/server/circuit_breaker.go; Calls: the breaker's use in
--                                callBackendTool (internal/server/unified.go)
--   Server.Hmac                  internal/server/hmac.go: nonceCache, hmacMiddleware
--   Server.ToolLimit             internal/server/unified.go: enforceToolCallLimit
--   Auth, Server.Session         internal/auth/header.go, internal/server/session.go: the session that a
--                                request names
--   Server.RateLimit             internal/server/rate_limit.go, internal/githubhttp/rate_limit.go
--   Proxy.Router                 internal/proxy/router.go: the patterns and their matching; Args,
--                                Routes, Services: the table; Dispatch: the buckets, MatchRoute
--   Proxy.Response               internal/proxy/response_transform.go: envelopes, GraphQL answers
--   Launcher.Pool, .State, .Health  internal/launcher/connection_pool.go, launcher.go,
--                                health_monitor.go
--   Mcp.Result                   internal/mcpresult/mcpresult.go: the text of a result
--   Mcp.Pagination               internal/mcp/pagination.go: PaginateAll
--   Config.Failure, .Integrity, .Scope, .Sink, .Policy
--                                internal/config/guard_policy.go, guard_policy_validation.go: policies
--                                of guards, their validation and normalisation
--   Config.Codec                 internal/config/guard_policy.go: UnmarshalJSON and MarshalJSON
--   Config.Build, Config.Parse   internal/config/guard_policy_parse.go: policies from flags, raw maps
--                                and the environment
--   Config.Rules                 internal/config/validation_rules.go
--   Config.Env                   internal/envutil/envutil.go
--   Common                       what the code takes of the language and its standard library
--   Tests                        runs of the code, one for each result
-- The children of a module (Laws, and others named for what they prove) hold its proofs.
--
-- How state and operations correspond. A struct is a record and a method a function from the record
-- to the record after it, with the result beside it. A method holds its lock from start to end, so
-- it is one step; where a lock is released in between (MapGetOrCreate, and with it
-- AgentRegistry.GetOrCreate) each part has the state that it sees, and where several callers act
-- the order of their steps is a list of events. An instant that the code reads from the clock is an
-- argument, in nanoseconds; the zero time.Time is 0, and in Server.Hmac 0 is the Unix epoch. A map
-- is the list of its entries, a set the list of its keys, in the order of an iteration over it; a
-- string is the list of its bytes, of which only the ASCII letters and spaces have a case or are
-- trimmed. A pointer that may be nil is an Option; a panic on a nil pointer is `none` as the result
-- of a filter. The calls of a tool are those of one session to one server, with its one budget and
-- its one breaker, beside the registry of all agents. 64-bit counters are bit patterns that wrap,
-- compared as signed numbers; a time.Duration is a natural number, with negative ones and sizes
-- below 0 taken as 0, but signed and wrapping where it comes from a number of seconds. A decoded
-- JSON value is a value of Common.Json, where null is nil; a typed policy stands for the JSON it is
-- marshalled to.
--
-- Bounds. The loop over pages, which need not end without a cap, is recursion on fuel, the number
-- of rounds; every other loop is recursion on the list that it runs over. A threshold or an error
-- limit is below 2^63, as a positive `int` is.
--
-- Parameters: the parser of JSON texts and the verb %v of fmt, SHA-256 and HMAC-SHA-256, what a
-- backend or a WebAssembly guard answers, what a launch comes to, what a page of a list holds, and a
-- guard (a record of functions, which the no-op guard and the write-sink fill). They have no assumptions.
--
-- Not modelled: logging and tracing, HTTP and MCP transports, processes and goroutines, the texts of
-- JSON (values stand for them), the WebAssembly runtime, the rest of the configuration and of
-- the proxy, the GraphQL queries; `Structure` of a labelled resource, which nothing reads; the texts of violation errors.
pub mod Auth
pub mod Common
pub mod Config
pub mod Difc
pub mod Guard
pub mod Launcher
pub mod Mcp
pub mod Proxy
pub mod Server
pub mod Syncutil
mod Tests
