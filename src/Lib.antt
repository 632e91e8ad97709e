-- ===== src/Lib.antt =====
-- The LLM gateway (app/): the routing of requests over fallback chains with circuit breakers, which
-- may be shared through Redis, the relay and the billing of streams, and what stands around them.
--
-- A request enters `LLMRouter` (app/gateway/router.py), which walks the chain of deployments of its
-- route (app/gateway/routing_config.py). For each deployment it asks the circuit breaker
-- (app/gateway/circuit_breaker.py), calls the provider, retries with back-off and tells the breaker
-- the outcome; `ClusterBreakers` (app/gateway/breaker_cluster.py) keeps what replicas share. A
-- stream goes on in a generator that charges it when it ends.
--
-- Common has names of the libraries, tests on numbers, integers, dicts, text, the state monad.
-- Breaker has `CircuitBreaker`. Each method returns the new object, and the clock readings that it
-- takes are its arguments. Breaker/Protocol has the protocol of its docstring as a step
-- function on phases, Breaker/Sequences runs of calls.
-- Routes has `Pricing`, `Deployment`, `RoutingConfig`, `_validate`, `deployments`, `all_deployments`
-- and `compute_cost` (app/gateway/pricing.py).
-- Schemas has the messages of app/gateway/schemas.py and app/gateway/providers.py that the router
-- handles.
-- Environment has what the gateway calls and does not contain, as one record: the clock, the random
-- generator, sleeping, Redis pipelines, the provider adapters with their iterators, LiteLLM's
-- prices. It is a parameter of everything that is stateful; Tests/Bench is one instance.
-- Cluster has `ClusterBreakers` with `sync`, `claim_probe`, `record_failure`, `record_success` and
-- `states`. A pipeline answers a list of replies, or nothing when it raises.
-- Faults has `FaultInjector` of app/gateway/faults.py.
-- Router has the router's state and its methods `_prepare`, `_breaker`, `_failed`, `_succeeded`, with
-- the admission of a request by a breaker; Router/Retry has the loops, Router/Complete `complete`. An
-- exception is a constructor of `Routed`, and carries the attempts.
-- Stream has `open_stream`, `OpenStream` and `_chunk_completion`; Stream/Relay `_relay`, `_settle`,
-- `_estimate`, `_absorb`, where the pulls from the provider and the hanging up of the client are
-- events.
-- Jobs has the ingestion jobs: their records and the platform they run on, Redis included, as a
-- parameter (app/workers/jobs.py); Jobs/Store the stores, Jobs/Service `submit`, `execute` and `_fail`
-- (app/workers/service.py), Jobs/Inline the loop of `InlineJobQueue` (app/workers/queue.py). An
-- exception of a Redis call itself is not modelled.
-- Chunking has the chunkers of app/rag/chunking.py: Chunking/Units `_split_units`, the heading prefix
-- and the sentence chunker around `_pack`. The module's regular expressions are a parameter.
-- Agents has the state graph of app/agents/graph.py; Agents/Nodes the nodes of the research agent
-- (app/agents/nodes.py, app/agents/state.py), Agents/Research its graph and `research`
-- (app/agents/service.py). Chat, retrieval, the templates of app/agents/prompts.py and the text
-- methods of Python that the nodes use are a parameter; durations are left out.
-- Rollout has `RolloutManager` of app/gateway/rollout.py: the cached pair of route tables, `select`,
-- `record`, the rollback and the writes to Redis, whose decoding of the tables is a parameter.
-- RateLimit has the token bucket of app/core/rate_limit.py, the Lua script included.
-- Routes/Equality has the comparison of deployments, whose options are a dict. Jobs/Recorded has what an attempt
-- leaves in Redis, Jobs/Deliveries the rounds of the inline queue; an exception that the queue logs is a
-- parameter there, since the stores of Jobs do not raise.
-- Metering has `UsageMeter` of app/core/metering.py, its pipeline as a list of commands.
-- SemanticCache has `SemanticCache` of app/cache/semantic_cache.py, over any index of vectors;
-- SemanticCache/BruteForce has `BruteForceIndex`. Redis, the embedding model, sha256 and uuid are a
-- parameter. SemanticCache/Caps says what Redis does to a sorted set.
-- Chat has `ChatService` of app/gateway/service.py: Chat/Complete `complete`, Chat/Streaming `stream`, both
-- on the router above; Chat/Chunks the chunks. The cache, the meter and the rollout manager are a
-- parameter, of which Chat/Books assumes that each keeps to its own records.
-- Keys has `ApiKeyStore` and `TokenService` of app/core/security.py, with Redis, sha256, the random generator
-- and the JWT library as a parameter; Keys/Access the authentication of app/api/deps.py, Keys/Limited its
-- rate limit on RateLimit and the guard of the admin routes, Keys/Stored what Redis holds of the keys.
-- Gate has `InferenceGate` of app/core/concurrency.py as a step function, on the semaphore of asyncio.
-- Retrieval has `Retriever` of app/rag/retrieval.py and the searches of app/rag/vector_store.py; Documents the
-- writes of the latter, app/rag/documents.py and app/rag/ingestion.py; Rag `RagService` of
-- app/rag/service.py, on Retrieval and Chat.
--
-- Times and durations are integers in ticks, 200 ticks for the 200 ms base delay of the retries;
-- costs, rates and random numbers are natural numbers of a fixed unit. Text is a list of code
-- points. A `for` over a list is recursion on it and the retry loop is recursion on the rounds left,
-- so neither has fuel; `chop`, which cuts an answer into pieces, takes its length as fuel.
-- The windows of a section have its number of words as fuel, each window taking at least one of
-- them; a run of a state graph has its step budget, which is the source's own.
-- The batches of an upsert have the number of points as fuel, each taking at least one.
--
-- Not modelled: requests that interleave on one router (a method runs to its end before the next),
-- closing a provider's iterator when its stream ends, logging, metrics and tracing, YAML and JSON
-- parsing; the parsers of documents (app/rag/parsing.py) and the BM25 terms (app/rag/lexical.py), which
-- are regular expressions; the HTTP routes (app/api), the configuration and wiring, and the tools around
-- the program.
pub mod Common
pub mod Breaker
pub mod Routes
pub mod Schemas
pub mod Environment
pub mod Cluster
pub mod Faults
pub mod Router
pub mod Stream
pub mod Jobs
pub mod Chunking
pub mod Agents
pub mod Rollout
pub mod RateLimit
pub mod Metering
pub mod SemanticCache
pub mod Keys
pub mod Gate
pub mod Retrieval
pub mod Documents
pub mod Chat
pub mod Rag
mod Tests
