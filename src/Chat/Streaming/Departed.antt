-- ===== src/Chat/Streaming/Departed.antt =====
-- A client of `ChatService.stream` of app/gateway/service.py that leaves at the first chunk.
use llm_gateway_rag.Common.{◌≡◌, refl, ap, ◌+◌, ◌==◌, Bool, true, Option, none, some, List, []}
use llm_gateway_rag.Routes.{RoutingConfig, Deployment, Usage}
use llm_gateway_rag.Schemas.{ChatRequest, StreamDelta}
use llm_gateway_rag.Environment.{Environment}
use llm_gateway_rag.Rollout.{Variant}
use llm_gateway_rag.Router.{Session}
use llm_gateway_rag.Router.Retry.{Routed}
use llm_gateway_rag.Stream.{OpenStream, Opening, Source, begun, open_stream, open_stream_on}
use llm_gateway_rag.Keys.{Principal}
use llm_gateway_rag.Chat.{Collaborators, World}
use llm_gateway_rag.Chat.Streaming.{meter_later, after_relay, stream_rest}

module _ (e : Environment) (c : Collaborators) where
  opened_unused :
      (request : ChatRequest) (w : Routed (StreamDelta × Source e.Iterator × Bool)) (o : OpenStream)
      (source : Source e.Iterator)
      → begun e request w ≡ Opening.opened o source
      → o.usage ≡ record { prompt_tokens = 0; completion_tokens = 0 }
  unfolding begun
  opened_unused request (Routed.routed r dep attempts) o source h = cc
  opened_unused request (Routed.unknown_model name) o source h = cc
  opened_unused request (Routed.all_failed attempts) o source h = cc
  opened_unused request (Routed.client_error f attempts) o source h = cc

  opened_on_unused :
      (request : ChatRequest) (chain : Option (List Deployment)) (r : Session e) (o : OpenStream)
      (source : Source e.Iterator)
      → (open_stream_on e request chain r).0 ≡ Opening.opened o source
      → o.usage ≡ record { prompt_tokens = 0; completion_tokens = 0 }
  unfolding open_stream_on
  opened_on_unused request none r o source h = cc
  opened_on_unused request (some chain) r o source h = opened_unused request _ o source h

  meter_later-unused :
      (principal : Principal) (o : OpenStream) (w : World e c)
      → (o.usage.prompt_tokens + o.usage.completion_tokens == 0) ≡ true
      → meter_later e c principal o w ≡ w
  unfolding meter_later
  meter_later-unused principal o w h = rw h refl

  -- If the client leaves at the first chunk of a stream that a deployment has opened, nothing is metered
  -- for it: the state of the collaborators is the one before.
  pub leaves_first-unmetered :
      (principal : Principal) (request : ChatRequest) (config : Option RoutingConfig)
      (variant : Option Variant) (r : Session e) (s : c.State) (o : OpenStream)
      (source : Source e.Iterator)
      → (open_stream e request config r).0 ≡ Opening.opened o source
      → (stream_rest e c principal request variant o [] true
          ((open_stream e request config r).1, s)).1.1
        ≡ s
  unfolding open_stream stream_rest after_relay
  leaves_first-unmetered principal request config variant r s o source h =
      ap (λ (w : World e c). w.1)
        (meter_later-unused principal o _ (
          ap (λ (u : Usage). u.prompt_tokens + u.completion_tokens == 0)
            (opened_on_unused request _ r o source h)))
