-- ===== src/Stream.antt =====
-- Streams of app/gateway/router.py: `open_stream`, which ends its fallbacks at the first token, and
-- `_chunk_completion`, which makes a stream of a whole answer.
pub mod Relay
pub mod Pieces
pub mod Charges
pub mod Billing
pub mod Delivery
use llm_gateway_rag.Common.{
  ℕ, zero, suc, ◌+◌, String, Bool, true, false, Option, none, some, List, [], ◌∷◌, ◌++◌, map,
  length, take, drop, or_else, str_eq, if◌then◌else◌, not,
}
use llm_gateway_rag.Common.Int.{ℤ, pos}
use llm_gateway_rag.Common.Dict.{lookup}
use llm_gateway_rag.Common.Text.{Text, split}
use llm_gateway_rag.Common.Action.{Action, pure, ◌>>=◌, ◌>>◌}
use llm_gateway_rag.Routes.{Deployment, RoutingConfig, Usage}
use llm_gateway_rag.Schemas.{
  ChatMessage, ChatRequest, ProviderResponse, StreamDelta, Failure, CallResult, Attempt,
}
use llm_gateway_rag.Environment.{Environment, Pulled}
use llm_gateway_rag.Router.{Router, Session, lift, timeout_of, inject, prepare}
use llm_gateway_rag.Router.Retry.{Routed, walk}

-- `[text[i : i + size] for i in range(0, len(text), size)]`, with the length of the text as fuel
unfoldable pub chop : ℕ → ℕ → Text → List Text
chop size zero t = []
chop size (suc fuel) [] = []
chop size (suc fuel) (c ∷ t) = take size (c ∷ t) ∷ chop size fuel (drop size (c ∷ t))

abbrev pub chunk_size : ℕ
chunk_size = 24

abbrev pub piece : String → Text → StreamDelta
piece model t = record { content = t; finish_reason = none; usage = none; model = some model }

abbrev pub last_delta : ProviderResponse → StreamDelta
last_delta response = record {
  content = [];
  finish_reason = some response.finish_reason;
  usage = some response.usage;
  model = some response.model;
}

-- the first delta and the rest, from the pieces `… or [""]`
abbrev pub first_and_rest : ProviderResponse → List Text → StreamDelta × List StreamDelta
first_and_rest response [] = (piece response.model [], last_delta response ∷ [])
first_and_rest response (t ∷ ts) =
    (piece response.model t, map (piece response.model) ts ++ last_delta response ∷ [])

-- `_chunk_completion`
unfoldable pub chunk_completion : ProviderResponse → StreamDelta × List StreamDelta
unfolding chop
chunk_completion response =
    first_and_rest response (chop chunk_size (length response.content) response.content)

-- The state of an open stream, without the iterator `rest`. `charged` is what `_settle` adds to the
-- counters of tokens and cost, entry by entry.
pub record Charge : Type 0 where
  pub usage : Usage
  pub cost : ℕ

pub record OpenStream : Type 0 where
  pub deployment : Deployment
  pub model : String
  pub attempts : List Attempt
  pub first : StreamDelta
  pub ttft : ℤ
  pub prompt_estimate : ℕ
  pub synthesized : Bool
  pub usage : Usage
  pub finish_reason : String
  pub cost_usd : ℕ
  pub usage_estimated : Bool
  pub reported_usage : Bool
  pub settled : Bool
  pub charged : List Charge

-- the iterator that `rest` relays: the adapter's own, or the deltas of a chunked answer
pub data Source (I : Type 0) : Type 0 where
  provided : I → Source I
  chunks : List StreamDelta → Source I

pub data Opening (I : Type 0) : Type 0 where
  opened : OpenStream → Source I → Opening I
  unknown_model : String → Opening I
  all_failed : List Attempt → Opening I
  client_error : Failure → List Attempt → Opening I

-- the `ttft` of the attempt that succeeded, which is the last
abbrev pub last_latency : List Attempt → ℤ
last_latency [] = pos 0
last_latency (a ∷ []) = a.latency
last_latency (a ∷ b ∷ tries) = last_latency (b ∷ tries)

-- `sum(len(m.content.split()) for m in request.messages)`
unfoldable pub prompt_words : List ChatMessage → ℕ
prompt_words [] = 0
prompt_words (m ∷ ms) = length (split m.content) + prompt_words ms

-- `first.model or dep.model`: an empty text is no model either
abbrev pub model_or : Option String → String → String
model_or none d = d
model_or (some m) d = if str_eq m "" then d else m

module _ (e : Environment) where
  open e use {State, Iterator, clock, can_stream, stream, pull, aclose}

  first_token : Iterator → Pulled → Action State (CallResult (StreamDelta × Source Iterator × Bool))
  first_token it (Pulled.delta d) = pure (CallResult.returned (d, Source.provided it, false))
  first_token it Pulled.exhausted = do aclose it; pure (CallResult.failed Failure.ended)
  first_token it (Pulled.broken f) = do aclose it; pure (CallResult.failed f)

  chunked : CallResult ProviderResponse → CallResult (StreamDelta × Source Iterator × Bool)
  chunked (CallResult.failed f) = CallResult.failed f
  chunked (CallResult.returned response) =
      let (first, rest) = chunk_completion response in
      CallResult.returned (first, Source.chunks rest, true)

  start_stream :
      ChatRequest
      → Deployment
      → ℤ
      → Action State (CallResult (StreamDelta × Source Iterator × Bool))
  unfolding first_token chunked
  start_stream request dep timeout =
      if can_stream dep.provider
      then (do it ← stream dep request; pulled ← pull it timeout; first_token it pulled)
      else (do answer ← e.complete dep request timeout; pure (chunked answer))

  -- the `try` of `_open_with_retries`, with the iterator closed where it fails
  unfoldable pub open_provider :
      ChatRequest
      → Deployment
      → Action (Session e) (CallResult (StreamDelta × Source Iterator × Bool))
  unfolding start_stream
  open_provider request dep (r, s) =
      let (fault, (r', s')) = inject e dep.name (r, s) in
      elim fault [
        | some f ↦ (CallResult.failed f, (r', s'))
        | none ↦ lift e (start_stream request dep (timeout_of r dep)) (r', s')
      ]

  unfoldable pub begun :
      ChatRequest → Routed (StreamDelta × Source Iterator × Bool) → Opening Iterator
  begun request (Routed.routed (first, rest, synthesized) dep attempts) =
      Opening.opened
        (record {
          deployment = dep;
          model = model_or first.model dep.model;
          attempts = attempts;
          first = first;
          ttft = last_latency attempts;
          prompt_estimate = prompt_words request.messages;
          synthesized = synthesized;
          usage = record { prompt_tokens = 0; completion_tokens = 0 };
          finish_reason = "stop";
          cost_usd = 0;
          usage_estimated = false;
          reported_usage = false;
          settled = false;
          charged = [];
        })
        rest
  begun request (Routed.unknown_model name) = Opening.unknown_model name
  begun request (Routed.all_failed attempts) = Opening.all_failed attempts
  begun request (Routed.client_error f attempts) = Opening.client_error f attempts

  unfoldable pub open_stream_on :
      ChatRequest → Option (List Deployment) → Action (Session e) (Opening Iterator)
  open_stream_on request none = pure (Opening.unknown_model request.model)
  open_stream_on request (some chain) = do
    prepare e chain
    -- the breaker is told of no success yet: that is settled when the stream ends
    w ← walk e (open_provider request) (λ dep. pure tt) chain []
    pure (begun request w)

  unfoldable pub open_stream :
      ChatRequest → Option RoutingConfig → Action (Session e) (Opening Iterator)
  open_stream request config (r, s) =
      open_stream_on request (lookup request.model (or_else config r.config)) (r, s)
