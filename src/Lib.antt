-- ===== src/Lib.antt =====
-- The gateway policies: a model of their core logic, and what is proved of it.
--
-- A policy of the repository is a Go package under policies/. The gateway calls its hooks with
-- the request or the response, and the policy keeps its own state between the calls.
--
-- Rate limiting (policies/advanced-ratelimit). A limiter answers, for a key and a cost, whether
-- the call is let through. The package has two algorithms, each with an in-memory limiter and a
-- limiter that combines several:
--   Limiter      limiter/interface.go, limiter/result.go, limiter/clock.go, and Go's time and maps
--   FixedWindow  algorithms/fixedwindow/policy.go and memory.go: `allow_n` is AllowN,
--                `consume_or_clamp_n` ConsumeOrClampN, `consume_n` ConsumeN, `get_available`
--                GetAvailable, `remove_expired` removeExpired
--   Gcra         algorithms/gcra/policy.go and memory.go, with the same names
--   Multi        algorithms/fixedwindow/multi.go (algorithms/gcra/multi.go has the same text):
--                a list of limiters of any kind behind the interface `Multi.Limiter`
-- A method of a limiter holds the mutex of the limiter for its whole body, so a call is one step
-- from a state to the next, and interleaved calls are a sequence of steps (FixedWindow/Trace,
-- Gcra/Trace). The clocks are arguments of the step.
--
-- Routing of a request to one of several models:
--   Value        the values of a policy's parameters and of the metadata of a request
--   Routing      what the two round robins share, whose packages repeat the same text: the key of a
--                suspended target, OnRequestHeaders behind the selection, OnResponseHeaders, the
--                rewriting of a path, and (Routing/Parsing) the common part of parseParams
--   Weighted     policies/model-weighted-round-robin/weightedroundrobin.go: GetPolicy, parseParams,
--                buildWeightedSequence, selectNextAvailableWeightedModel, the two header hooks
--   RoundRobin   policies/model-round-robin/roundrobin.go: the same hooks, selectNextAvailableModel
--   Schedule     policies/time-based-model-routing/config.go and timebasedmodelrouting.go: the week
--                ranges of a schedule, overlap, validation, and the selection of the target
-- A selection holds the mutex of its policy for its whole body, so it is one step too, and so is
-- the suspension after a response. The instant of time.Now is an argument. OnRequestHeaders leaves
-- the selected target in the metadata of the request, where OnResponseHeaders finds it.
--
-- The OAuth2 token cache (policies/oauth2-generator/token_cache.go):
--   TokenCache   Token and Purge, which lock only in short sections. A call is a sequence of steps,
--                one for each access of what calls share, and calls interleave between steps.
--                Redis, the token endpoint and the clock answer from outside (`Outside`). The entry
--                of the local cache stays until it is replaced or deleted; a Redis entry may be gone.
--
-- The local-async limiter and its coordinator (redis_local_async.go, flush_coordinator.go of
-- policies/advanced-ratelimit/algorithms/fixedwindow):
--   LocalAsync   what happens to a stripe under its lock: AllowN and eviction here, the snapshot and
--                the results of a flush in LocalAsync/Flush
--   LocalAsync/Coordinator  one limiter with any number of calls of AllowN and the worker of its
--                shard. A step is a section under a lock or one access of the shared flags; `run`
--                takes the steps in the order of a list, so every interleaving is such a list. What
--                Redis answers is an argument of a step. The fields that only the worker touches are
--                read and written in the step next to them.
--   LocalAsync/Registry     registration, shards, base tick, under the coordinator's mutex
--
-- The frames of an AWS event stream (policies/openai-to-bedrock-transformer/eventstream.go):
--   EventStream  decodeEventStreamFrames, eventStreamBoundary, decodeOneFrame, parseHeaders. Bytes are
--                a list of numbers, and the loops work on the bytes from their offset on. A frame
--                takes 16 bytes at least and a header one, so the length of the bytes and one more is
--                enough fuel. EventStream/Encode is the wire format as an encoder.
--
-- The store of tool embeddings (policies/semantic-tool-filtering/embeddingcache.go):
--   EmbeddingCache  every operation of EmbeddingCacheStore, which holds one lock. A Go map that is
--                iterated is an association list (Prelude/Table) whose order stands for the order of
--                the iteration, which may be any. An embedding is of any type.
--                EmbeddingCache/Operations has the sequences of operations.
--
-- The cost-based model routing (policies/cost-based-model-routing/costbasedmodelrouting.go, budget.go
-- and config.go):
--   CostRouting  a budget over a limiter of the interface `Multi.Limiter` (Query, Charge), checkBudget
--                and selectTarget, which asks at most two budgets, each in its own environment.
--                CostRouting/Charging is the metadata of a request, parseReportedCost, scaleCost,
--                chargeOnce and the body hooks of a response; CostRouting/Once has the sequences of
--                hooks, and CostRouting/Spending the policy over the fixed-window memory limiter.
--                CostRouting/Parsing is parseRoutes, whose loop keeps the names and models it has met,
--                CostRouting/Requests is OnRequestHeaders, and CostRouting/Journey follows a request
--                from there to the charge of its response.
--                CostRouting/Sharing is sharedLimiter, whose calls hold one lock. `CostRouting.Texts`,
--                `CostRouting.CostOps`, `CostRouting.Parsing.ParseOps` and
--                `CostRouting.Requests.PathOps` are what the policy uses of Go's strings, regexp,
--                time, net/url and float64, without laws.
--
-- CORS (policies/cors/cors.go):
--   Cors         handlePreflightHeaders, handleNonPreflightHeaders and the two hooks, which pass the
--                decision on a request to its response in two entries of the metadata (`Notes`);
--                GetPolicy is in Cors/Setup. Response headers are an association list.
--                `Cors.TextOps` is what the policy uses of Go's strings and regexp, without laws.
--                Cors/Granting and Cors/Origins are about what answers grant, Cors/Actual about the
--                response to a request that is no preflight request, Cors/Wildcards about wildcards
--                among the methods, Cors/Counting about the test of the requested headers.
--
-- Integers. An int64 or a Go int is an integer (Prelude/Int), and every sum, difference and product
-- that the source computes on int64 wraps as in Go (`add64`, `sub64`, `mul64`); the index of the
-- weighted round robin does too. The minutes of Schedule and the index of RoundRobin are natural
-- numbers, since the source keeps them in a small range. Instants are unbounded numbers of
-- nanoseconds; years beyond Go's time.Time are not modelled. Only the printing of a number
-- (Prelude/Text, where the fuel is the number itself) and the loops of EventStream run on fuel: every
-- other loop of the source is a recursion on a list or on a number of attempts that the source itself
-- bounds.
--
-- Parameters. `Limiter.Floats` is what the limiters use of Go's float64, with the exactness of a
-- ceiling of a quotient below 2 ^ 53 as its one law. `Value.FloatOps` is what extractInt uses of it,
-- and `Routing.Paths` what the rewriting of a path uses of Go's net/url, strings and regexp, both
-- without laws.
--
-- Not modelled: the Redis limiters (Lua scripts), the Redis pipelines and TTLs of the local-async
-- limiter, its Close, the grouping of limiters by client, the policy around the limiters
-- (policies/advanced-ratelimit/ratelimit.go), the OnRequestBody hooks, the parsing of the parameters
-- of the time-based routing and, beside parseRoutes, of the cost-based routing, log output, the
-- headers of a rate-limited response, the other policies, the goroutine behind the cleanup (a cleanup
-- is a step that may come at any instant), and Close.
pub mod Prelude
pub mod Limiter
pub mod FixedWindow
pub mod Gcra
pub mod Multi
pub mod Cors
pub mod CostRouting
pub mod EmbeddingCache
pub mod EventStream
pub mod LocalAsync
pub mod RoundRobin
pub mod Routing
pub mod Schedule
pub mod TokenCache
pub mod Value
pub mod Weighted
pub mod Tests
