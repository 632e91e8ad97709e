-- ===== src/Environment.antt =====
-- What the gateway calls and does not implement: the Redis server, the clock, the random numbers,
-- `asyncio.sleep` and the provider adapters. Each call takes the state of the world outside and
-- leaves another one; nothing is assumed of it but where a theorem says so.
use llm_gateway_rag.Common.{ℕ, ◌/◌, max, String, Bool, Option, List}
use llm_gateway_rag.Common.Int.{ℤ, pos, negsuc}
use llm_gateway_rag.Common.Dict.{Dict}
use llm_gateway_rag.Routes.{Deployment}
use llm_gateway_rag.Schemas.{ChatRequest, ProviderResponse, StreamDelta, Failure, CallResult}

-- A clock tick is a millisecond.
abbrev pub ticks_per_second : ℕ
ticks_per_second = 1000

-- `max(int(seconds), 1)`, the whole seconds that an expiry is given in
unfoldable pub whole_seconds : ℤ → ℕ
whole_seconds (pos n) = max (n / ticks_per_second) 1
whole_seconds (negsuc n) = 1

-- "breaker:fails:{}", "breaker:open:{}" and "breaker:probe:{}" of app/gateway/breaker_cluster.py
pub data Key : Type 0 where
  fails opened probe : String → Key

-- The commands that the gateway sends. `set` has its expiry in seconds and its `nx` flag; the last
-- three are those on the hash "faults:deployments" of app/gateway/faults.py.
pub data Command : Type 0 where
  get incr ttl : Key → Command
  set : Key → ℕ → Bool → Command
  expire : Key → ℕ → Command
  delete : List Key → Command
  hgetall : Command
  hset : String → ℕ → Command
  hdel : String → Command

-- A stored value is a decimal numeral, and is true as a Python value whichever it is.
pub data Reply : Type 0 where
  nil : Reply
  value : ℕ → Reply
  integer : ℤ → Reply
  hash : Dict ℕ → Reply

-- What `asyncio.wait_for(anext(iterator), timeout)` comes to.
pub data Pulled : Type 0 where
  delta : StreamDelta → Pulled
  exhausted : Pulled
  broken : Failure → Pulled

pub record Environment : Type 1 where
  pub State : Type 0
  pub Iterator : Type 0
  pub clock : State → ℤ × State
  -- `random()`, in the unit of the fault rates
  pub random : State → ℕ × State
  pub sleep : ℤ → State → Unit {0} × State
  -- one pipeline; `none` is an exception
  pub execute : List Command → State → Option (List Reply) × State
  -- `hasattr(provider, "stream")`
  pub can_stream : String → Bool
  -- `asyncio.wait_for(provider.complete(dep, request), timeout)`
  pub complete : Deployment → ChatRequest → ℤ → State → CallResult ProviderResponse × State
  pub stream : Deployment → ChatRequest → State → Iterator × State
  pub pull : Iterator → ℤ → State → Pulled × State
  pub aclose : Iterator → State → Unit {0} × State
  -- LiteLLM's price of a model's tokens
  pub price_map : String → ℕ → ℕ → Option ℕ
