-- ===== src/Tests/Chats.antt =====
-- The chat service with collaborators that keep lists.
use llm_gateway_rag.Common.{
  String, Bool, true, Option, none, some, List, [], ◌∷◌, ◌++◌, ◌≡◌, refl, is_some,
}
use llm_gateway_rag.Common.Dict.{lookup}
use llm_gateway_rag.Common.Fallible.{Fallible}
use llm_gateway_rag.Environment.{Pulled}
use llm_gateway_rag.Rollout.{Variant, VariantName}
use llm_gateway_rag.Metering.{Spending}
use llm_gateway_rag.SemanticCache.{CachedCompletion, CacheHit}
use llm_gateway_rag.Common.Int.{pos}
use llm_gateway_rag.Chat.Chunks.{text_of, replay_chunks, text_of-replay_chunks}
use llm_gateway_rag.Common.Int.{◌-ℤ◌}
use llm_gateway_rag.Common.Dict.{insert}
use llm_gateway_rag.Breaker
use llm_gateway_rag.Router.{admit, breaker_state, failed, succeeded, prepare, inject}
use llm_gateway_rag.Router.Retry.{
  back_off, after_failure, after_call, after_tries, try_deployment, retries, walk,
}
use llm_gateway_rag.Stream.{
  OpenStream, Opening, open_stream, open_stream_on, begun, open_provider, chunk_completion, chop,
}
use llm_gateway_rag.Stream.Relay.{Event}
use llm_gateway_rag.Keys.{Principal}
use llm_gateway_rag.Chat.{Answer, Collaborators, World, select_table}
use llm_gateway_rag.Chat.Books.{Books}
use llm_gateway_rag.Chat.Complete.{complete}
use llm_gateway_rag.Chat.Complete.Accounts.{Accounted, complete-Accounted}
use llm_gateway_rag.Chat.Streaming.{stream_rest}
use llm_gateway_rag.Chat.Streaming.Departed.{leaves_first-unmetered}
use llm_gateway_rag.Tests.Bench.{bench, question}
use llm_gateway_rag.Tests.Tables.{table}
use llm_gateway_rag.Tests.Routing.{session}
use llm_gateway_rag.Tests.Streams.{begun as begun_stream}

pub record Logs : Type 0 where
  pub metered : List (String × Spending)
  pub told : List (Variant × Bool)
  pub stored : List CachedCompletion

abbrev canary : Variant
canary = record { name = VariantName.canary; version = "v2" }

-- a cache without entries and a canary that serves every request
abbrev pub logging : Collaborators
logging = record {
  State = Logs;
  has_cache = true;
  has_rollout = true;
  lookup = λ t q s. (Fallible.done none, s);
  store = λ t q k s. (Fallible.done tt, record s { stored = s.stored ++ k ∷ [] });
  meter = λ k u s. (Fallible.done tt, record s { metered = s.metered ++ (k, u) ∷ [] });
  select = λ s. ((table, canary), s);
  record_outcome = λ v ok s. (Fallible.done tt, record s { told = s.told ++ (v, ok) ∷ [] });
}

abbrev books : Books logging
books = record {
  metered = λ s. s.metered;
  told = λ s. s.told;
  stored = λ s. s.stored;
  lookup_keeps = λ t q s. (refl, refl, refl);
  select_keeps = λ s. (refl, refl, refl);
  store_adds = λ t q k s. (refl, refl, refl);
  meter_adds = λ k u s. (refl, refl, refl);
  outcome_adds = λ v ok s. (refl, refl, refl);
  success_told = λ v s. refl;
}

abbrev pub caller : Principal
caller = record {
  key_id = "k";
  tenant_id = "acme";
  rate_limit_capacity = none;
  rate_limit_refill_per_sec = none;
}

abbrev pub start : World bench logging
start = (session, record { metered = []; told = []; stored = [] })

complete-Accounted_example :
    (served : _ × Option Variant) × ((select_table bench logging start).0 ≡ Answer.answered served)
    × Accounted bench logging books "k" served.1
        (is_some (lookup question.model served.0))
        start.1
        (complete bench logging caller question start)
complete-Accounted_example = complete-Accounted bench logging books caller question start

-- the provider breaks after a token
abbrev broken : List Event
broken = Event.pulled Pulled.exhausted ∷ []

abbrev answering : Opening bench.Iterator → OpenStream
answering (Opening.opened o source) = o
answering _ = begun_stream

leaves_first-unmetered_example :
    let (opening, r) = open_stream bench question none session in
    (stream_rest bench logging caller question
      (some canary)
      (answering opening)
      []
      true
      (r, start.1)).1.1
    ≡ start.1
unfolding open_stream open_stream_on begun open_provider chunk_completion chop walk try_deployment
    retries back_off after_call after_failure after_tries prepare inject admit breaker_state failed
    succeeded lookup insert Breaker.allow_request Breaker.read_state Breaker.record_failure
    Breaker.record_success ◌-ℤ◌
leaves_first-unmetered_example =
    leaves_first-unmetered bench logging caller question none (some canary) session start.1 _ _ refl

abbrev hit : CacheHit
hit = record {
  completion = record {
    content = 104 ∷ 105 ∷ [];
    model = "m";
    finish_reason = "stop";
    prompt_tokens = 3;
    completion_tokens = 4;
    deployment = "d";
    cost_usd = 20;
  };
  similarity = pos 9;
}

text_of-replay_chunks_example : text_of (replay_chunks hit) ≡ 104 ∷ 105 ∷ []
text_of-replay_chunks_example = text_of-replay_chunks hit
