-- ===== src/Chat/Streaming/Books.antt =====
-- What `ChatService.stream` of app/gateway/service.py meters, reports and puts into the cache.
use llm_gateway_rag.Common.{
  ◌≡◌, refl, sym, ◌⊎◌, inl, inr, String, Bool, ◌&&◌, not, Option, List, [], ◌∷◌, Bool-cases,
  if◌then◌else◌, is_some,
}
use mathlib.Core.Path.{subst}
use mathlib.Core.List.{append-nil}
use llm_gateway_rag.Common.Text.{Text}
use llm_gateway_rag.Schemas.{ChatRequest, Failure}
use llm_gateway_rag.Environment.{Environment}
use llm_gateway_rag.Rollout.{Variant}
use llm_gateway_rag.Metering.{Spending}
use llm_gateway_rag.SemanticCache.{CachedCompletion}
use llm_gateway_rag.Stream.{OpenStream}
use llm_gateway_rag.Keys.{Principal}
use llm_gateway_rag.Chat.{
  Answer, Collaborators, proceed, pure, ◌>>◌, World, called, record_variant, store_cached,
  uses_cache,
}
use llm_gateway_rag.Chat.Books.{
  Books, told_of, Adds, Adds-none, Adds-trans, record_variant-Adds, entries, meter-Adds,
  store_cached-Adds, proceed-answered,
}
use llm_gateway_rag.Chat.Chunks.{ChatChunk, last_chunk}
use llm_gateway_rag.Chat.Streaming.{
  spent_by, streamed, meta_of, reason_of, fill_stream, finish_stream,
}

module _ (e : Environment) (c : Collaborators) (b : Books c) where
  -- what goes to the cache: a whole answer, where the request uses the cache
  abbrev pub cached_of : ChatRequest → OpenStream → Text → Option Failure → List CachedCompletion
  cached_of request o text interrupted =
      if uses_cache e c request && not (is_some interrupted) then streamed o text ∷ [] else []

  fill_stream-Adds :
      (principal : Principal) (request : ChatRequest) (o : OpenStream) (text : Text)
      (interrupted : Option Failure) (w : World e c)
      → ((fill_stream e c principal request o text interrupted w).0 ≡ Answer.answered tt)
        × Adds e c b [] []
            (cached_of request o text interrupted)
            w.1
            (fill_stream e c principal request o text interrupted w).1.1
  unfolding store_cached
  fill_stream-Adds principal request o text interrupted w =
      elim (Bool-cases (uses_cache e c request && not (is_some interrupted))) [
        | inl h ↦ rw h (refl, store_cached-Adds e c b principal request (streamed o text) w)
        | inr h ↦ rw h (refl, Adds-none e c b w.1 w.1 (refl, refl, refl))
      ]

  -- At most one spending, and only for this key.
  abbrev pub AtMostOne : String → List (String × Spending) → Type 0
  AtMostOne key_id ms = (ms ≡ []) ⊎ ((u : Spending) × (ms ≡ (key_id, u) ∷ []))

  -- What was cached is nothing, or the stream's answer with this text if it is to be cached.
  abbrev pub CachedAtMost : ChatRequest → Text → List CachedCompletion → Type 0
  CachedAtMost request text cs =
      (cs ≡ [])
      ⊎ ((o : OpenStream) × (interrupted : Option Failure) × (cs
            ≡ cached_of request o text interrupted))

  -- The stream that the last chunk tells of was metered as the chunk says, a rollout heard of it as
  -- a success unless it was interrupted, and it was put into the cache only if it was not.
  abbrev pub Settled :
      String → ChatRequest → Option Variant → Text → ChatChunk → c.State → World e c → Type 0
  Settled key_id request variant text k s w =
      (o : OpenStream) × (interrupted : Option Failure) × (k
        ≡ last_chunk o.model (reason_of o interrupted) o.usage (meta_of o variant interrupted))
      × Adds e c b ((key_id, spent_by o) ∷ [])
          (told_of c.has_rollout variant (not (is_some interrupted)))
          (cached_of request o text interrupted) s w.1

  abbrev pub Finished :
      String → ChatRequest → Option Variant → Text → c.State → Answer ChatChunk × World e c → Type 0
  Finished key_id request variant text s (Answer.answered k, w) =
      Settled key_id request variant text k s w
  Finished key_id request variant text s (Answer.failed err, w) =
      (ms : List (String × Spending)) × (ts : List (Variant × Bool)) × (cs : List CachedCompletion)
      × AtMostOne key_id ms
      × CachedAtMost request text cs
      × Adds e c b ms ts cs s w.1

  told-Finished :
      (key_id : String) (request : ChatRequest) (variant : Option Variant) (o : OpenStream)
      (text : Text) (interrupted : Option Failure) (s : c.State) (a : Answer (Unit {0}))
      (w : World e c)
      → Adds e c b
          ((key_id, spent_by o) ∷ [])
          (told_of c.has_rollout variant (not (is_some interrupted)))
          (cached_of request o text interrupted)
          s
          w.1
      → Finished key_id request variant text s (
          proceed
            (λ x. pure (
              last_chunk o.model (reason_of o interrupted) o.usage (meta_of o variant interrupted)))
            a
            w)
  told-Finished key_id request variant o text interrupted s (Answer.answered x) w h =
      (o, interrupted, refl, h)
  told-Finished key_id request variant o text interrupted s (Answer.failed err) w h =
      (_, _, _, inr (spent_by o, refl), inr (o, interrupted, refl), h)

  metered-Finished :
      (key_id : String) (request : ChatRequest) (variant : Option Variant) (o : OpenStream)
      (text : Text) (interrupted : Option Failure) (s : c.State) (a : Answer (Unit {0}))
      (w : World e c)
      → Adds e c b
          (entries e c b a key_id (spent_by o))
          []
          (cached_of request o text interrupted)
          s
          w.1
      → Finished key_id request variant text s (
          proceed
            (λ x.
              record_variant e c variant (not (is_some interrupted))
              >> pure (
                  last_chunk o.model
                    (reason_of o interrupted)
                    o.usage
                    (meta_of o variant interrupted)))
            a
            w)
  metered-Finished key_id request variant o text interrupted s (Answer.failed err) w h =
      ([], [], _, inl refl, inr (o, interrupted, refl), h)
  metered-Finished key_id request variant o text interrupted s (Answer.answered x) w h =
      told-Finished key_id request variant o text interrupted s _ _ (
        subst
          (λ cs.
            Adds e c b ((key_id, spent_by o) ∷ [])
              (told_of c.has_rollout variant (not (is_some interrupted))) cs s
              (record_variant e c variant (not (is_some interrupted)) w).1.1)
          (append-nil (cached_of request o text interrupted))
          (Adds-trans e c b ((key_id, spent_by o) ∷ []) [] []
            (told_of c.has_rollout variant (not (is_some interrupted)))
            (cached_of request o text interrupted) [] s w.1 _ h
            (record_variant-Adds e c b variant (not (is_some interrupted)) w)))

  pub finish_stream-Finished :
      (principal : Principal) (request : ChatRequest) (o : OpenStream) (variant : Option Variant)
      (text : Text) (interrupted : Option Failure) (w : World e c)
      → Finished principal.key_id request variant text w.1
          (finish_stream e c principal request o variant text interrupted w)
  unfolding finish_stream
  finish_stream-Finished principal request o variant text interrupted w =
      let (done, filled) = fill_stream-Adds principal request o text interrupted w in
      let w' = (fill_stream e c principal request o text interrupted w).1 in
      let run = called e c (c.meter principal.key_id (spent_by o)) w' in
      subst (Finished principal.key_id request variant text w.1)
        (sym (
          proceed-answered _ (fill_stream e c principal request o text interrupted w).0 tt w' done))
        (metered-Finished principal.key_id request variant o text interrupted w.1 run.0 run.1 (
          subst
            (λ cs. Adds e c b (entries e c b run.0 principal.key_id (spent_by o)) [] cs w.1 run.1.1)
            (append-nil (cached_of request o text interrupted))
            (Adds-trans e c b [] (entries e c b run.0 principal.key_id (spent_by o)) [] []
              (cached_of request o text interrupted) [] w.1 w'.1 run.1.1 filled
              (meter-Adds e c b principal.key_id (spent_by o) w'))))
