-- ===== src/Chat/Complete.antt =====
-- `ChatService.complete` of app/gateway/service.py.
pub mod Accounts
use llm_gateway_rag.Common.{
  ℕ, String, Bool, true, false, Option, none, some, List, [], ◌∷◌, if◌then◌else◌, map, is_some,
}
use llm_gateway_rag.Common.Dict.{lookup}
use llm_gateway_rag.Routes.{RoutingConfig}
use llm_gateway_rag.Schemas.{ChatRequest}
use llm_gateway_rag.Environment.{Environment}
use llm_gateway_rag.Router.Complete.{Completion, RoutedResult, complete as complete_routed}
use llm_gateway_rag.Rollout.{Variant, VariantName}
use llm_gateway_rag.Metering.{Spending}
use llm_gateway_rag.SemanticCache.{CachedCompletion, CacheHit}
use llm_gateway_rag.Keys.{Principal}
use llm_gateway_rag.Chat.{
  ChatResponse, GatewayMeta, build_response, ChatError, Answer, Collaborators, proceed, pure, raise,
  ◌>>=◌, ◌>>◌, on_error, saved, World, routed, called, select_table, record_variant, store_cached,
  uses_cache, hit_for,
}

abbrev pub response_of_hit : CacheHit → ChatResponse
response_of_hit hit =
    let cached = hit.completion in
    build_response cached.content cached.model cached.finish_reason cached.prompt_tokens
      cached.completion_tokens
      (record {
        deployment = none;
        cached = true;
        route_variant = none;
        cache_similarity = some hit.similarity;
        cost_usd = 0;
        attempts = [];
      })

abbrev pub response_of_result : RoutedResult → ChatResponse
response_of_result result =
    let resp = result.response in
    build_response resp.content resp.model resp.finish_reason resp.usage.prompt_tokens
      resp.usage.completion_tokens
      (record {
        deployment = some result.deployment.name;
        cached = false;
        route_variant = none;
        cache_similarity = none;
        cost_usd = result.cost_usd;
        attempts = result.attempts;
      })

-- the completion that goes to the cache, and the spending that is metered
abbrev pub completion_of : RoutedResult → CachedCompletion
completion_of result =
    let resp = result.response in
    record {
      content = resp.content;
      model = resp.model;
      finish_reason = resp.finish_reason;
      prompt_tokens = resp.usage.prompt_tokens;
      completion_tokens = resp.usage.completion_tokens;
      deployment = result.deployment.name;
      cost_usd = result.cost_usd;
    }

abbrev pub spent : RoutedResult → Spending
spent result = record {
  prompt_tokens = result.response.usage.prompt_tokens;
  completion_tokens = result.response.usage.completion_tokens;
  cost_usd = result.cost_usd;
  cached = false;
  cost_saved_usd = 0;
  self_hosted = result.deployment.self_hosted;
}

-- `response.nexusgate.route_variant = variant.name`
abbrev pub with_variant : Option Variant → ChatResponse → ChatResponse
with_variant none response = response
with_variant (some variant) response = record response {
  nexusgate = record response.nexusgate { route_variant = some variant.name };
}

module _ (e : Environment) (c : Collaborators) where
  -- `await self._meter.record(…)`, then the response
  unfoldable pub meter_and_answer :
      Principal → Spending → ChatResponse → World e c → Answer ChatResponse × World e c
  meter_and_answer principal spending response = do
    called e c (c.meter principal.key_id spending)
    pure response

  -- what follows the router's answer
  unfoldable pub after_routing :
      Principal → ChatRequest → Completion → World e c → Answer ChatResponse × World e c
  after_routing principal request (Completion.completed result) = do
    if uses_cache e c request
        then store_cached e c principal request (completion_of result)
        else pure tt
    meter_and_answer principal (spent result) (response_of_result result)
  after_routing principal request (Completion.unknown_model name) =
      raise (ChatError.unknown_model name)
  after_routing principal request (Completion.all_failed attempts) =
      raise (ChatError.all_failed attempts)
  after_routing principal request (Completion.client_error f attempts) =
      raise (ChatError.client_error f attempts)

  unfoldable pub answer_with :
      Principal
      → ChatRequest
      → RoutingConfig
      → Option CacheHit
      → World e c
      → Answer ChatResponse × World e c
  answer_with principal request config (some hit) =
      meter_and_answer principal (saved hit.completion) (response_of_hit hit)
  answer_with principal request config none = do
    result ← routed e c (complete_routed e request (some config))
    after_routing principal request result

  -- `_complete`
  unfoldable pub complete_on :
      Principal → ChatRequest → RoutingConfig → World e c → Answer ChatResponse × World e c
  complete_on principal request config = do
    hit ← hit_for e c principal request
    answer_with principal request config hit

  -- the `try` of `complete` and what follows it
  unfoldable pub report :
      Option Variant → Answer ChatResponse → World e c → Answer ChatResponse × World e c
  report variant answer s =
      proceed (λ response. record_variant e c variant true >> pure (with_variant variant response))
        (on_error (record_variant e c variant false) answer s).0
        (on_error (record_variant e c variant false) answer s).1

  unfoldable pub complete_by :
      Principal
      → ChatRequest
      → RoutingConfig × Option Variant
      → World e c
      → Answer ChatResponse × World e c
  complete_by principal request (config, variant) s =
      if is_some (lookup request.model config)
      then report variant (complete_on principal request config s).0
          (complete_on principal request config s).1
      else raise (ChatError.unknown_model request.model) s

  -- `complete`
  unfoldable pub complete : Principal → ChatRequest → World e c → Answer ChatResponse × World e c
  complete principal request = do table ← select_table e c; complete_by principal request table
