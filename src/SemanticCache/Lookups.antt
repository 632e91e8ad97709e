-- ===== src/SemanticCache/Lookups.antt =====
-- What `lookup` of app/cache/semantic_cache.py may serve.
use llm_gateway_rag.Common.{
  ◌≡◌, refl, String, true, false, Option, none, some, List, Bool-cases, sym, ap, ◌∙◌, inl, inr,
}
use llm_gateway_rag.Common.Int.{ℤ, ltb_ℤ, ◌≤ℤ◌, ltb_ℤ-false}
use llm_gateway_rag.Common.Fallible.{Fallible, proceed, pure, ◌>>=◌, proceed-done, done_injective}
use llm_gateway_rag.Common.Text.{Text}
use llm_gateway_rag.Schemas.{ChatMessage, ChatRequest}
use llm_gateway_rag.SemanticCache.{
  CachedCompletion, CacheHit, CacheKey, CacheServices, CacheSettings, Index, split_last,
  namespace_for, fetch_hit, hit_of, lookup_parts, cache_lookup,
}

module _ (v : CacheServices) (nearest : Index v) (settings : CacheSettings) where
  open v use {State, Vector, embed, digest, get_payload}

  -- The payload of a hit was read at this key, which the index gave for the namespace.
  pub record ServedAt (ns : String) (content : Text) (hit : CacheHit) (key : CacheKey) (s : State)
      : Type 0 where
    pub vec : Vector
    pub similarity : ℤ
    pub embedded : (embed content s).0 ≡ Fallible.done vec
    pub found : (nearest ns vec (embed content s).1).0 ≡ Fallible.done (some (key, similarity))
    pub close : settings.threshold ≤ℤ similarity
    pub reported : hit.similarity ≡ v.round4 similarity
    pub read :
        (get_payload key (nearest ns vec (embed content s).1).1).0
        ≡ Fallible.done (some hit.completion)

  hit_of-some :
      (similarity : ℤ) (payload : Option CachedCompletion) (hit : CacheHit)
      → hit_of v nearest settings similarity payload ≡ some hit
      → (payload ≡ some hit.completion) × (v.round4 similarity ≡ hit.similarity)
  hit_of-some similarity none hit h = cc
  hit_of-some similarity (some c) hit h = (cc, cc)

  fetch_hit-close :
      (key : CacheKey) (similarity : ℤ) (s : State)
      → ltb_ℤ similarity settings.threshold ≡ false
      → fetch_hit v nearest settings (some (key, similarity)) s
        ≡ proceed
            (λ p. pure (hit_of v nearest settings similarity p))
            (get_payload key s).0
            (get_payload key s).1
  unfolding fetch_hit
  fetch_hit-close key similarity s e = rw e refl

  fetch_hit-far :
      (key : CacheKey) (similarity : ℤ) (s : State)
      → ltb_ℤ similarity settings.threshold ≡ true
      → (fetch_hit v nearest settings (some (key, similarity)) s).0 ≡ Fallible.done none
  unfolding fetch_hit
  fetch_hit-far key similarity s e = rw e refl

  fetch_hit-some :
      (found : Option (CacheKey × ℤ)) (hit : CacheHit) (s : State)
      → (fetch_hit v nearest settings found s).0 ≡ Fallible.done (some hit)
      → (key : CacheKey) × (similarity : ℤ) × (found ≡ some (key, similarity))
        × (settings.threshold ≤ℤ similarity)
        × (hit.similarity ≡ v.round4 similarity)
        × ((get_payload key s).0 ≡ Fallible.done (some hit.completion))
  unfolding fetch_hit
  fetch_hit-some none hit s h = cc
  fetch_hit-some (some (key, similarity)) hit s h =
      elim (Bool-cases (ltb_ℤ similarity settings.threshold)) [
        | inl e ↦ let p = fetch_hit-far key similarity s e in cc
        | inr e ↦
            let (payload, read, h') =
              proceed-done (λ p. pure (hit_of v nearest settings similarity p))
                (get_payload key s).0 (get_payload key s).1
                (sym (ap (λ x. x.0) (fetch_hit-close key similarity s e)) ∙ h) in
            let (p, q) = hit_of-some similarity payload hit (done_injective h') in
            (
              key,
              similarity,
              refl,
              ltb_ℤ-false similarity settings.threshold e,
              sym q,
              rw (sym p) read,
            )
      ]

  lookup_parts-ServedAt :
      (tenant_id : String) (request : ChatRequest) (hit : CacheHit) (s : State)
      (parts : List ChatMessage × ChatMessage)
      → (lookup_parts v nearest settings tenant_id request (some parts) s).0
        ≡ Fallible.done (some hit)
      → (key : CacheKey) × ServedAt
          (namespace_for v nearest settings tenant_id request parts)
          parts.1.content
          hit
          key
          s
  unfolding lookup_parts
  lookup_parts-ServedAt tenant_id request hit s parts h =
      let ns = namespace_for v nearest settings tenant_id request parts in
      let (vec, embedded, h') =
        proceed-done (λ vec. nearest ns vec >>= fetch_hit v nearest settings)
          (embed parts.1.content s).0 (embed parts.1.content s).1 h in
      let (found, at, h'') =
        proceed-done (fetch_hit v nearest settings) (nearest ns vec (embed parts.1.content s).1).0
          (nearest ns vec (embed parts.1.content s).1).1 h' in
      let (key, similarity, p, close, reported, read) = fetch_hit-some found hit _ h'' in
      (
        key,
        record {
          vec = vec;
          similarity = similarity;
          embedded = embedded;
          found = at ∙ ap Fallible.done p;
          close = close;
          reported = reported;
          read = read;
        },
      )

  abbrev pub ServedFrom : String → ChatRequest → CacheHit → State → Type 0
  ServedFrom tenant_id request hit s =
      (parts : List ChatMessage × ChatMessage) × (split_last request.messages ≡ some parts)
      × (key : CacheKey) × ServedAt (namespace_for v nearest settings tenant_id request parts)
          parts.1.content hit key s

  lookup_parts-ServedFrom :
      (tenant_id : String) (request : ChatRequest) (hit : CacheHit) (s : State)
      (o : Option (List ChatMessage × ChatMessage))
      → split_last request.messages ≡ o
      → (lookup_parts v nearest settings tenant_id request o s).0 ≡ Fallible.done (some hit)
      → ServedFrom tenant_id request hit s
  unfolding lookup_parts
  lookup_parts-ServedFrom tenant_id request hit s none e h = cc
  lookup_parts-ServedFrom tenant_id request hit s (some parts) e h =
      let (key, served) = lookup_parts-ServedAt tenant_id request hit s parts h in
      (parts, e, key, served)

  -- The completion of a hit was read at the key that the index gave for the embedding of the last message in the
  -- namespace of the tenant and the request, with a similarity of at least the threshold, which the hit reports
  -- rounded.
  pub cache_lookup-ServedFrom :
      (tenant_id : String) (request : ChatRequest) (hit : CacheHit) (s : State)
      → (cache_lookup v nearest settings tenant_id request s).0 ≡ Fallible.done (some hit)
      → ServedFrom tenant_id request hit s
  unfolding cache_lookup
  cache_lookup-ServedFrom tenant_id request hit s h =
      lookup_parts-ServedFrom tenant_id request hit s (split_last request.messages) refl h
