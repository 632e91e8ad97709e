-- ===== src/Chat.antt =====
-- The chat service, app/gateway/service.py: cache, router, cache fill and metering, and what a canary
-- is told of them. The router is the one of Router and Stream; cache, meter and rollout manager are a
-- parameter. Traces, log lines, metrics and latencies are left out.
pub mod Books
pub mod Complete
pub mod Chunks
pub mod Streaming
use llm_gateway_rag.Common.{
  ℕ, ◌+◌, String, Bool, true, false, Option, none, some, List, [], ◌++◌, ◌∷◌, ◌&&◌, if◌then◌else◌,
}
use llm_gateway_rag.Common.Int.{ℤ}
use llm_gateway_rag.Common.Text.{Text}
use llm_gateway_rag.Common.Fallible.{Fallible}
use llm_gateway_rag.Routes.{RoutingConfig}
use llm_gateway_rag.Schemas.{ChatRequest, Failure, Attempt}
use llm_gateway_rag.Environment.{Environment}
use llm_gateway_rag.Router.{Session}
use llm_gateway_rag.Rollout.{Variant, VariantName}
use llm_gateway_rag.Keys.{Principal}
use llm_gateway_rag.Metering.{Spending}
use llm_gateway_rag.SemanticCache.{CachedCompletion, CacheHit}

pub record GatewayMeta : Type 0 where
  pub deployment : Option String
  pub cached : Bool
  pub route_variant : Option VariantName
  pub cache_similarity : Option ℤ
  pub cost_usd : ℕ
  pub attempts : List Attempt

pub record UsageOut : Type 0 where
  pub prompt_tokens : ℕ
  pub completion_tokens : ℕ
  pub total_tokens : ℕ

-- `ChatResponse` with the content and the finish reason of its one choice
pub record ChatResponse : Type 0 where
  pub model : String
  pub content : Text
  pub finish_reason : String
  pub usage : UsageOut
  pub nexusgate : GatewayMeta

abbrev pub usage_out : ℕ → ℕ → UsageOut
usage_out p c = record { prompt_tokens = p; completion_tokens = c; total_tokens = p + c }

-- `_build_response`
abbrev pub build_response : Text → String → String → ℕ → ℕ → GatewayMeta → ChatResponse
build_response content model finish_reason p c meta = record {
  model = model;
  content = content;
  finish_reason = finish_reason;
  usage = usage_out p c;
  nexusgate = meta;
}

-- The exceptions that reach the endpoint.
pub data ChatError : Type 0 where
  unknown_model : String → ChatError
  all_failed : List Attempt → ChatError
  client_error : Failure → List Attempt → ChatError
  overloaded : ChatError
  raised : String → ChatError

pub data Answer (A : Type 0) : Type 0 where
  answered : A → Answer A
  failed : ChatError → Answer A

abbrev pub answer_of : {A : Type 0} → Fallible A → Answer A
answer_of (Fallible.done a) = Answer.answered a
answer_of Fallible.overloaded = Answer.failed ChatError.overloaded
answer_of (Fallible.raised e) = Answer.failed (ChatError.raised e)

-- What the service is built with: the cache and the rollout manager may be missing.
pub record Collaborators : Type 1 where
  pub State : Type 0
  pub has_cache : Bool
  pub has_rollout : Bool
  pub lookup : String → ChatRequest → State → Fallible (Option CacheHit) × State
  pub store : String → ChatRequest → CachedCompletion → State → Fallible (Unit {0}) × State
  pub meter : String → Spending → State → Fallible (Unit {0}) × State
  pub select : State → (RoutingConfig × Variant) × State
  pub record_outcome : Variant → Bool → State → Fallible (Unit {0}) × State

abbrev pub proceed : {S A B : Type 0} → (A → S → Answer B × S) → Answer A → S → Answer B × S
proceed f (Answer.answered a) s = f a s
proceed f (Answer.failed e) s = (Answer.failed e, s)

abbrev pub pure : {S A : Type 0} → A → S → Answer A × S
pure a s = (Answer.answered a, s)

abbrev pub raise : {S A : Type 0} → ChatError → S → Answer A × S
raise e s = (Answer.failed e, s)

infixl 5 ◌>>=◌ ◌>>◌
abbrev pub ◌>>=◌ : {S A B : Type 0} → (S → Answer A × S) → (A → S → Answer B × S) → S → Answer B × S
◌>>=◌ m f s = proceed f (m s).0 (m s).1

abbrev pub ◌>>◌ : {S A B : Type 0} → (S → Answer A × S) → (S → Answer B × S) → S → Answer B × S
◌>>◌ m k s = proceed (λ a. k) (m s).0 (m s).1

-- `except Exception: …; raise`, where the handler may raise itself
abbrev pub on_error : {S A : Type 0} → (S → Answer (Unit {0}) × S) → Answer A → S → Answer A × S
on_error handler (Answer.answered a) s = (Answer.answered a, s)
on_error handler (Answer.failed e) s =
    proceed (λ u s'. (Answer.failed e, s')) (handler s).0 (handler s).1

-- the spending of a hit
abbrev pub saved : CachedCompletion → Spending
saved c = record {
  prompt_tokens = 0;
  completion_tokens = 0;
  cost_usd = 0;
  cached = true;
  cost_saved_usd = c.cost_usd;
  self_hosted = false;
}

abbrev pub found : Fallible (Option CacheHit) → Option CacheHit
found (Fallible.done hit) = hit
found Fallible.overloaded = none
found (Fallible.raised e) = none

module _ (e : Environment) (c : Collaborators) where
  abbrev pub World : Type 0
  World = Session e × c.State

  -- an effect of the router, and one of the collaborators
  abbrev pub routed : {A : Type 0} → (Session e → A × Session e) → World → Answer A × World
  routed m (r, s) = (Answer.answered (m r).0, ((m r).1, s))

  abbrev pub called : {A : Type 0} → (c.State → Fallible A × c.State) → World → Answer A × World
  called m (r, s) = (answer_of (m s).0, (r, (m s).1))

  -- `await self._rollout.select() if self._rollout else (self._router.config, None)`
  unfoldable pub select_table : World → Answer (RoutingConfig × Option Variant) × World
  select_table ((r, x), s) =
      if c.has_rollout
      then (Answer.answered ((c.select s).0.0, some (c.select s).0.1), ((r, x), (c.select s).1))
      else (Answer.answered (r.config, none), ((r, x), s))

  -- `_record_variant`
  unfoldable pub record_variant : Option Variant → Bool → World → Answer (Unit {0}) × World
  record_variant none ok = pure tt
  record_variant (some variant) ok =
      if c.has_rollout then called (c.record_outcome variant ok) else pure tt

  -- `_lookup`
  unfoldable pub lookup_cached : Principal → ChatRequest → World → Answer (Option CacheHit) × World
  lookup_cached principal request (r, s) =
      let (answer, s') = c.lookup principal.tenant_id request s in
      (Answer.answered (found answer), (r, s'))

  -- `_store`
  unfoldable pub store_cached :
      Principal → ChatRequest → CachedCompletion → World → Answer (Unit {0}) × World
  store_cached principal request completion (r, s) =
      (Answer.answered tt, (r, (c.store principal.tenant_id request completion s).1))

  -- `use_cache`
  abbrev pub uses_cache : ChatRequest → Bool
  uses_cache request = c.has_cache && request.cache

  -- `if use_cache: hit = await self._lookup(…)`
  unfoldable pub hit_for : Principal → ChatRequest → World → Answer (Option CacheHit) × World
  hit_for principal request =
      if uses_cache request then lookup_cached principal request else pure none
