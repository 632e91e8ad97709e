-- ===== src/Chat/Streaming.antt =====
-- `ChatService.stream` of app/gateway/service.py, with `_finish_stream`, `_replay_cached` and
-- `_meter_later`. What the provider gives is a list of events, as for the relay, and the client may
-- leave at the last chunk that they bring.
pub mod Books
pub mod Accounts
pub mod Departed
use llm_gateway_rag.Common.{
  ◌≡◌, ℕ, ◌+◌, ◌==◌, String, Bool, true, false, ◌&&◌, not, Option, none, some, List, [], ◌∷◌, ◌++◌,
  is_some, if◌then◌else◌, suc, length, take,
}
use llm_gateway_rag.Common.Dict.{lookup}
use llm_gateway_rag.Common.Text.{Text}
use llm_gateway_rag.Routes.{RoutingConfig}
use llm_gateway_rag.Schemas.{ChatRequest, Failure, StreamDelta}
use llm_gateway_rag.Environment.{Environment, Pulled}
use llm_gateway_rag.Rollout.{Variant}
use llm_gateway_rag.Metering.{Spending}
use llm_gateway_rag.SemanticCache.{CachedCompletion, CacheHit}
use llm_gateway_rag.Stream.{OpenStream, Opening, open_stream}
use llm_gateway_rag.Stream.Relay.{Event, Relay, Ending, relay, start, take_delta, is_empty, join}
use llm_gateway_rag.Keys.{Principal}
use llm_gateway_rag.Chat.{
  ChatError, Answer, Collaborators, proceed, pure, raise, ◌>>=◌, ◌>>◌, on_error, saved, World,
  routed, called, select_table, record_variant, store_cached, uses_cache, hit_for,
}
use llm_gateway_rag.Chat.Chunks.{
  StreamMeta, ChatChunk, text_chunk, last_chunk, replay_chunks, replay_last,
}

-- How a stream stands: it ended with its last chunk, it waits for the client or the provider, the
-- client has left, or it raised.
pub data StreamEnd : Type 0 where
  finished : ChatChunk → StreamEnd
  waiting left : StreamEnd
  broken : ChatError → StreamEnd

abbrev pub spent_by : OpenStream → Spending
spent_by o = record {
  prompt_tokens = o.usage.prompt_tokens;
  completion_tokens = o.usage.completion_tokens;
  cost_usd = o.cost_usd;
  cached = false;
  cost_saved_usd = 0;
  self_hosted = o.deployment.self_hosted;
}

abbrev pub streamed : OpenStream → Text → CachedCompletion
streamed o text = record {
  content = text;
  model = o.model;
  finish_reason = o.finish_reason;
  prompt_tokens = o.usage.prompt_tokens;
  completion_tokens = o.usage.completion_tokens;
  deployment = o.deployment.name;
  cost_usd = o.cost_usd;
}

abbrev pub meta_of : OpenStream → Option Variant → Option Failure → StreamMeta
meta_of o variant interrupted = record {
  deployment = some o.deployment.name;
  cached = false;
  route_variant = elim variant [ none ↦ none | some v ↦ some v.name ];
  cache_similarity = none;
  cost_usd = o.cost_usd;
  attempts = o.attempts;
  ttft = some o.ttft;
  synthesized = o.synthesized;
  usage_estimated = o.usage_estimated;
  interrupted = interrupted;
}

-- `finish_reason="error" if interrupted else opened.finish_reason`
abbrev pub reason_of : OpenStream → Option Failure → String
reason_of o none = o.finish_reason
reason_of o (some f) = "error"

-- the chunks of the deltas with text, each with the model known when it is sent
unfoldable pub delta_chunks : (String → ℕ → ℕ → Option ℕ) → Relay → List Event → List ChatChunk
delta_chunks price_map g (Event.pulled (Pulled.delta d) ∷ events) =
    let g' = take_delta price_map g d in
    (if is_empty d.content then [] else text_chunk false g'.opened.model d.content ∷ [])
    ++ delta_chunks price_map g' events
delta_chunks price_map g _ = []

module _ (e : Environment) (c : Collaborators) where
  -- the cache fill of `_finish_stream`
  abbrev pub fill_stream :
      Principal
      → ChatRequest
      → OpenStream
      → Text
      → Option Failure
      → World e c
      → Answer (Unit {0}) × World e c
  fill_stream principal request o text interrupted =
      if uses_cache e c request && not (is_some interrupted)
      then store_cached e c principal request (streamed o text)
      else pure tt

  -- `_finish_stream` and the last chunk
  unfoldable pub finish_stream :
      Principal
      → ChatRequest
      → OpenStream
      → Option Variant
      → Text
      → Option Failure
      → World e c
      → Answer ChatChunk × World e c
  finish_stream principal request o variant text interrupted = do
    fill_stream principal request o text interrupted
    called e c (c.meter principal.key_id (spent_by o))
    record_variant e c variant (not (is_some interrupted))
    pure (last_chunk o.model (reason_of o interrupted) o.usage (meta_of o variant interrupted))

  -- `_meter_later`, whose task runs whatever becomes of the stream
  unfoldable pub meter_later : Principal → OpenStream → World e c → World e c
  meter_later principal o s =
      if o.usage.prompt_tokens + o.usage.completion_tokens == 0
      then s
      else (called e c (c.meter principal.key_id (spent_by o)) s).1

  abbrev pub ended :
      List ChatChunk → Answer ChatChunk × World e c → (List ChatChunk × StreamEnd) × World e c
  ended chunks (Answer.answered last, s) = ((chunks ++ last ∷ [], StreamEnd.finished last), s)
  ended chunks (Answer.failed err, s) = ((chunks, StreamEnd.broken err), s)

  -- what becomes of the relay's ending
  unfoldable pub after_relay :
      Principal
      → ChatRequest
      → Option Variant
      → Bool
      → List ChatChunk
      → OpenStream
      → Text
      → Ending
      → World e c
      → (List ChatChunk × StreamEnd) × World e c
  after_relay principal request variant leaves chunks o text Ending.completed s =
      ended chunks (finish_stream principal request o variant text none s)
  after_relay principal request variant leaves chunks o text (Ending.interrupted f part) s =
      ended chunks (finish_stream principal request o variant text (some f) s)
  after_relay principal request variant leaves chunks o text Ending.client_gone s =
      ((chunks, StreamEnd.left), meter_later principal o s)
  after_relay principal request variant leaves chunks o text Ending.suspended s =
      if leaves
      then ((chunks, StreamEnd.left), meter_later principal o s)
      else ((chunks, StreamEnd.waiting), s)

  -- from the first chunk on; the relay starts when the client asks for the second
  unfoldable pub stream_rest :
      Principal
      → ChatRequest
      → Option Variant
      → OpenStream
      → List Event
      → Bool
      → World e c
      → (List ChatChunk × StreamEnd) × World e c
  stream_rest principal request variant o [] leaves s =
      after_relay principal request variant leaves (text_chunk true o.model o.first.content ∷ []) o
        o.first.content Ending.suspended s
  stream_rest principal request variant o (event ∷ events) leaves (r, s) =
      let ((g, out, ending), r') = relay e (start e.price_map o) (event ∷ events) r in
      after_relay principal request variant leaves
        (text_chunk true o.model o.first.content
          ∷ delta_chunks e.price_map (start e.price_map o) (event ∷ events))
        g.opened (join g.delivered) ending (r', s)

  -- what `open_stream` gives, with its exceptions reported to the rollout
  unfoldable pub after_opening :
      Principal
      → ChatRequest
      → Option Variant
      → List Event
      → Bool
      → Opening e.Iterator
      → World e c
      → (List ChatChunk × StreamEnd) × World e c
  after_opening principal request variant events leaves (Opening.opened o source) s =
      stream_rest principal request variant o events leaves s
  after_opening principal request variant events leaves (Opening.unknown_model name) s =
      ended [] (
        on_error (record_variant e c variant false) (Answer.failed (ChatError.unknown_model name))
          s)
  after_opening principal request variant events leaves (Opening.all_failed attempts) s = ended [] (
      on_error (record_variant e c variant false) (Answer.failed (ChatError.all_failed attempts)) s)
  after_opening principal request variant events leaves (Opening.client_error f attempts) s =
      ended [] (
        on_error (record_variant e c variant false)
          (Answer.failed (ChatError.client_error f attempts)) s)

  abbrev pub replay_end :
      CacheHit → Answer (Unit {0}) × World e c → (List ChatChunk × StreamEnd) × World e c
  replay_end hit (Answer.answered x, s) =
      ((replay_chunks hit, StreamEnd.finished (replay_last hit)), s)
  replay_end hit (Answer.failed err, s) = ((replay_chunks hit, StreamEnd.broken err), s)

  -- `_replay_cached` once its usage is recorded: a client that leaves has read a chunk more than it
  -- has asked for, and the rollout is not told
  unfoldable pub replay :
      Option Variant
      → CacheHit
      → List Event
      → Bool
      → Answer (Unit {0})
      → World e c
      → (List ChatChunk × StreamEnd) × World e c
  replay variant hit events leaves (Answer.failed err) s = (([], StreamEnd.broken err), s)
  replay variant hit events leaves (Answer.answered x) s =
      if leaves
      then ((take (suc (length events)) (replay_chunks hit), StreamEnd.left), s)
      else replay_end hit (record_variant e c variant true s)

  unfoldable pub stream_with :
      Principal
      → ChatRequest
      → RoutingConfig
      → Option Variant
      → List Event
      → Bool
      → Option CacheHit
      → World e c
      → (List ChatChunk × StreamEnd) × World e c
  stream_with principal request config variant events leaves (some hit) s =
      let (a, s') = called e c (c.meter principal.key_id (saved hit.completion)) s in
      replay variant hit events leaves a s'
  stream_with principal request config variant events leaves none (r, s) =
      let (opening, r') = open_stream e request (some config) r in
      after_opening principal request variant events leaves opening (r', s)

  abbrev pub with_hit :
      Principal
      → ChatRequest
      → RoutingConfig
      → Option Variant
      → List Event
      → Bool
      → Answer (Option CacheHit) × World e c
      → (List ChatChunk × StreamEnd) × World e c
  with_hit principal request config variant events leaves (Answer.answered hit, s) =
      stream_with principal request config variant events leaves hit s
  with_hit principal request config variant events leaves (Answer.failed err, s) =
      (([], StreamEnd.broken err), s)

  unfoldable pub stream_by :
      Principal
      → ChatRequest
      → List Event
      → Bool
      → RoutingConfig × Option Variant
      → World e c
      → (List ChatChunk × StreamEnd) × World e c
  stream_by principal request events leaves (config, variant) s =
      if is_some (lookup request.model config)
      then with_hit principal request config variant events leaves (hit_for e c principal request s)
      else (([], StreamEnd.broken (ChatError.unknown_model request.model)), s)

  abbrev pub with_table :
      Principal
      → ChatRequest
      → List Event
      → Bool
      → Answer (RoutingConfig × Option Variant) × World e c
      → (List ChatChunk × StreamEnd) × World e c
  with_table principal request events leaves (Answer.answered table, s) =
      stream_by principal request events leaves table s
  with_table principal request events leaves (Answer.failed err, s) =
      (([], StreamEnd.broken err), s)

  -- `stream`
  unfoldable pub stream :
      Principal
      → ChatRequest
      → List Event
      → Bool
      → World e c
      → (List ChatChunk × StreamEnd) × World e c
  stream principal request events leaves s =
      with_table principal request events leaves (select_table e c s)
