-- ===== src/SemanticCache.antt =====
-- The semantic response cache, app/cache/semantic_cache.py. Redis, the embedding model and the hash
-- are a parameter; a similarity is an integer of a fixed unit. What the HNSW index of the Redis Query
-- Engine answers is given by the `nearest` of an index, of which `BruteForceIndex` is one.
pub mod BruteForce
pub mod Lookups
pub mod Caps
use llm_gateway_rag.Common.{
  ℕ, ◌+◌, String, Bool, true, false, Option, none, some, List, [], ◌∷◌, ◌++◌, map, leb,
  if◌then◌else◌, length,
}
use llm_gateway_rag.Common.Int.{ℤ, pos, ◌-ℤ◌, ltb_ℤ}
use llm_gateway_rag.Common.Text.{Text}
use llm_gateway_rag.Common.Fallible.{Fallible, proceed, pure, ◌>>=◌, ◌>>◌}
use llm_gateway_rag.Schemas.{ChatMessage, ChatRequest, Role}

pub record CachedCompletion : Type 0 where
  pub content : Text
  pub model : String
  pub finish_reason : String
  pub prompt_tokens : ℕ
  pub completion_tokens : ℕ
  pub deployment : String
  pub cost_usd : ℕ

pub record CacheHit : Type 0 where
  pub completion : CachedCompletion
  pub similarity : ℤ

-- `_entry_key`, `_zset_key` and `_tenant_key`
pub data CacheKey : Type 0 where
  entry : String → String → CacheKey
  recency tenant_set : String → CacheKey

-- What is hashed into a namespace.
pub record Material : Type 0 where
  pub tenant : String
  pub route : String
  pub temperature : Option ℕ
  pub max_tokens : Option ℕ
  pub context : List ChatMessage
  pub last_role : Role

-- `*context, last = messages`, which raises without messages
unfoldable pub split_last : List ChatMessage → Option (List ChatMessage × ChatMessage)
split_last [] = none
split_last (m ∷ []) = some ([], m)
split_last (m ∷ n ∷ ms) = elim (split_last (n ∷ ms)) [ none ↦ none | some r ↦ some (m ∷ r.0, r.1) ]

abbrev pub material_of : String → ChatRequest → List ChatMessage × ChatMessage → Material
material_of tenant_id request (context, last) = record {
  tenant = tenant_id;
  route = request.model;
  temperature = request.temperature;
  max_tokens = request.max_tokens;
  context = context;
  last_role = last.role;
}

-- The commands of the pipeline of `store`; the fields of an entry are its vector and its payload.
pub data CacheCommand (V : Type 0) : Type 0 where
  hset_entry : CacheKey → String → V → CachedCompletion → ℤ → CacheCommand V
  expire : CacheKey → ℕ → CacheCommand V
  zadd : CacheKey → String → ℤ → CacheCommand V
  zremrangebyscore_until : CacheKey → ℤ → CacheCommand V
  -- the ids below the rank that leaves so many above
  zrange_beyond zremrangebyrank_beyond : CacheKey → ℕ → CacheCommand V
  sadd : CacheKey → String → CacheCommand V

pub record CacheServices : Type 1 where
  pub State : Type 0
  pub Vector : Type 0
  pub embed : Text → State → Fallible Vector × State
  pub dot : Vector → Vector → ℤ
  -- `round(similarity, 4)`
  pub round4 : ℤ → ℤ
  pub digest : Material → String
  pub now : State → Fallible ℤ × State
  pub uuid : State → Fallible String × State
  -- the newest ids of a namespace, and the vectors of entries, none for one that has expired
  pub zrevrange : CacheKey → ℕ → State → Fallible (List String) × State
  pub get_vectors : List CacheKey → State → Fallible (List (Option Vector)) × State
  pub zrem : CacheKey → List String → State → Fallible (Unit {0}) × State
  pub get_payload : CacheKey → State → Fallible (Option CachedCompletion) × State
  -- the pipeline of `store`, with the reply of its ZRANGE
  pub pipeline : List (CacheCommand Vector) → State → Fallible (List String) × State
  pub delete : List CacheKey → State → Fallible ℕ × State
  pub smembers : CacheKey → State → Fallible (List String) × State
  -- the keys of the entries of one namespace, of all entries, of all recency sets, of all tenant sets
  pub scan_entries : Option String → State → Fallible (List CacheKey) × State
  pub scan_recency : State → Fallible (List CacheKey) × State
  pub scan_tenants : State → Fallible (List CacheKey) × State

-- `VectorIndex`: the closest entry of a namespace, with its similarity
abbrev pub Index : CacheServices → Type 0
Index v = String → v.Vector → v.State → Fallible (Option (CacheKey × ℤ)) × v.State

pub record CacheSettings : Type 0 where
  pub threshold : ℤ
  pub ttl : ℕ
  pub max_entries : ℕ

module _ (v : CacheServices) (nearest : Index v) (settings : CacheSettings) where
  open v use {
    State, Vector, embed, round4, digest, now, uuid, get_payload, pipeline, delete, smembers,
    scan_entries, scan_recency, scan_tenants,
  }

  -- `namespace_for`, with the last message
  abbrev pub namespace_for : String → ChatRequest → List ChatMessage × ChatMessage → String
  namespace_for tenant_id request parts = digest (material_of tenant_id request parts)

  abbrev pub hit_of : ℤ → Option CachedCompletion → Option CacheHit
  hit_of similarity none = none
  hit_of similarity (some c) = some (record { completion = c; similarity = round4 similarity })

  unfoldable pub fetch_hit : Option (CacheKey × ℤ) → State → Fallible (Option CacheHit) × State
  fetch_hit none = pure none
  fetch_hit (some (key, similarity)) =
      if ltb_ℤ similarity settings.threshold
      then pure none
      else (do payload ← get_payload key; pure (hit_of similarity payload))

  unfoldable pub lookup_parts :
      String
      → ChatRequest
      → Option (List ChatMessage × ChatMessage)
      → State
      → Fallible (Option CacheHit) × State
  lookup_parts tenant_id request none s = (Fallible.raised "ValueError", s)
  lookup_parts tenant_id request (some parts) s =
      (do
        vec ← embed parts.1.content
        found ← nearest (namespace_for tenant_id request parts) vec
        fetch_hit found)
        s

  -- `lookup`
  unfoldable pub cache_lookup : String → ChatRequest → State → Fallible (Option CacheHit) × State
  cache_lookup tenant_id request = lookup_parts tenant_id request (split_last request.messages)

  unfoldable pub store_commands :
      String → String → String → Vector → CachedCompletion → ℤ → List (CacheCommand Vector)
  store_commands tenant_id ns id vec completion t =
      CacheCommand.hset_entry (CacheKey.entry ns id) ns vec completion t
      ∷ CacheCommand.expire (CacheKey.entry ns id) settings.ttl
      ∷ CacheCommand.zadd (CacheKey.recency ns) id t
      ∷ CacheCommand.zremrangebyscore_until (CacheKey.recency ns) (t -ℤ pos settings.ttl)
      ∷ CacheCommand.zrange_beyond (CacheKey.recency ns) settings.max_entries
      ∷ CacheCommand.zremrangebyrank_beyond (CacheKey.recency ns) settings.max_entries
      ∷ CacheCommand.expire (CacheKey.recency ns) settings.ttl
      ∷ CacheCommand.sadd (CacheKey.tenant_set tenant_id) ns
      ∷ CacheCommand.expire (CacheKey.tenant_set tenant_id) settings.ttl
      ∷ []

  -- `if evicted := results[4]: await self._redis.delete(...)`
  unfoldable pub delete_evicted : String → List String → State → Fallible (Unit {0}) × State
  delete_evicted ns [] = pure tt
  delete_evicted ns (i ∷ is) = do delete (map (CacheKey.entry ns) (i ∷ is)); pure tt

  unfoldable pub store_parts :
      String
      → ChatRequest
      → CachedCompletion
      → Option (List ChatMessage × ChatMessage)
      → State
      → Fallible (Unit {0}) × State
  store_parts tenant_id request completion none s = (Fallible.raised "ValueError", s)
  store_parts tenant_id request completion (some parts) s =
      (do
        let ns = namespace_for tenant_id request parts
        vec ← embed parts.1.content
        id ← uuid
        t ← now
        evicted ← pipeline (store_commands tenant_id ns id vec completion t)
        delete_evicted ns evicted)
        s

  -- `store`
  unfoldable pub cache_store :
      String → ChatRequest → CachedCompletion → State → Fallible (Unit {0}) × State
  cache_store tenant_id request completion =
      store_parts tenant_id request completion (split_last request.messages)

  -- the loop of `_delete_matching` over the scanned keys, with the batch and the count so far
  unfoldable pub delete_batches : ℕ → List CacheKey → ℕ → List CacheKey → State → Fallible ℕ × State
  delete_batches size [] deleted [] = pure deleted
  delete_batches size (k ∷ batch) deleted [] = do n ← delete (k ∷ batch); pure (deleted + n)
  delete_batches size batch deleted (key ∷ keys) =
      if leb size (length (batch ++ key ∷ []))
      then (do n ← delete (batch ++ key ∷ []); delete_batches size [] (deleted + n) keys)
      else delete_batches size (batch ++ key ∷ []) deleted keys

  -- `_delete_matching`
  unfoldable pub delete_matching :
      (State → Fallible (List CacheKey) × State) → State → Fallible ℕ × State
  delete_matching scan = do keys ← scan; delete_batches 500 [] 0 keys

  unfoldable pub purge_namespaces : List String → ℕ → State → Fallible ℕ × State
  purge_namespaces [] deleted = pure deleted
  purge_namespaces (ns ∷ nss) deleted = do
    n ← delete_matching (scan_entries (some ns))
    delete (CacheKey.recency ns ∷ [])
    purge_namespaces nss (deleted + n)

  unfoldable pub purge_tenant : String → State → Fallible ℕ × State
  purge_tenant tenant_id = do
    namespaces ← smembers (CacheKey.tenant_set tenant_id)
    deleted ← purge_namespaces namespaces 0
    delete (CacheKey.tenant_set tenant_id ∷ [])
    pure deleted

  unfoldable pub purge_all : State → Fallible ℕ × State
  purge_all = do
    deleted ← delete_matching (scan_entries none)
    delete_matching scan_recency
    delete_matching scan_tenants
    pure deleted
