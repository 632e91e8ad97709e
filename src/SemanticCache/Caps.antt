-- ===== src/SemanticCache/Caps.antt =====
-- How `store` of app/cache/semantic_cache.py bounds the recency set of a namespace.
use llm_gateway_rag.Common.{
  ℕ, ◌≡◌, ◌≤◌, ◌-◌, String, Bool, false, List, [], ◌∷◌, map, take, drop, length, All, if◌then◌else◌,
  str_eq,
}
use llm_gateway_rag.Common.Int.{ℤ, pos, leb_ℤ, ◌-ℤ◌}
use llm_gateway_rag.Common.Fallible.{Fallible}
use llm_gateway_rag.SemanticCache.{
  CacheKey, CacheCommand, CacheServices, CacheSettings, Index, delete_evicted,
}

-- A sorted set of Redis, the ids by ascending scores.
abbrev pub Zset : Type 0
Zset = List (String × ℤ)

-- ZREMRANGEBYSCORE from -inf
unfoldable pub later_than : ℤ → Zset → Zset
later_than t [] = []
later_than t ((i, score) ∷ z) =
    let rest = later_than t z in if leb_ℤ score t then rest else (i, score) ∷ rest

-- the ids from rank 0 to rank -(n + 1), and the others
abbrev pub beyond : ℕ → Zset → List String
beyond n z = map (λ (e : String × ℤ). e.0) (take (length z - n) z)

abbrev pub within : ℕ → Zset → Zset
within n z = drop (length z - n) z

unfoldable pub same_set : CacheKey → CacheKey → Bool
same_set (CacheKey.recency a) (CacheKey.recency b) = str_eq a b
same_set _ _ = false

module _ {V : Type 0} (insert : String → ℤ → Zset → Zset) where
  -- What one command makes of the sorted set at a key.
  unfoldable pub apply_command : CacheKey → CacheCommand V → Zset → Zset
  apply_command key (CacheCommand.zadd k i t) z = if same_set key k then insert i t z else z
  apply_command key (CacheCommand.zremrangebyscore_until k t) z =
      if same_set key k then later_than t z else z
  apply_command key (CacheCommand.zremrangebyrank_beyond k n) z =
      if same_set key k then within n z else z
  apply_command key _ z = z

  unfoldable pub apply_all : CacheKey → List (CacheCommand V) → Zset → Zset
  apply_all key [] z = z
  apply_all key (c ∷ cs) z = apply_all key cs (apply_command key c z)

  -- the reply to the first ZRANGE of the set at the key
  unfoldable pub replied : CacheKey → List (CacheCommand V) → Zset → List String
  replied key [] z = []
  replied key (CacheCommand.zrange_beyond k n ∷ cs) z =
      let rest = replied key cs z in if same_set key k then beyond n z else rest
  replied key (c ∷ cs) z = replied key cs (apply_command key c z)

-- What Redis does to the sorted set of a namespace, by its documentation.
pub record Zsets (v : CacheServices) (ns : String) : Type 0 where
  pub zset : v.State → Zset
  pub insert : String → ℤ → Zset → Zset
  pub executed :
      (cs : List (CacheCommand v.Vector)) (s : v.State) (reply : List String)
      → (v.pipeline cs s).0 ≡ Fallible.done reply
      → zset (v.pipeline cs s).1 ≡ apply_all insert (CacheKey.recency ns) cs (zset s)
  pub reported :
      (cs : List (CacheCommand v.Vector)) (s : v.State) (reply : List String)
      → (v.pipeline cs s).0 ≡ Fallible.done reply
      → reply ≡ replied insert (CacheKey.recency ns) cs (zset s)
  -- the calls that touch no sorted set
  pub embedded : (content : _) (s : v.State) → zset (v.embed content s).1 ≡ zset s
  pub named : (s : v.State) → zset (v.uuid s).1 ≡ zset s
  pub timed : (s : v.State) → zset (v.now s).1 ≡ zset s
  pub deleted :
      (ids : List String) (s : v.State) → zset (v.delete (map (CacheKey.entry ns) ids) s).1 ≡ zset s

module _ (v : CacheServices) (nearest : Index v) (settings : CacheSettings) where
  open v use {State, Vector, embed, uuid, now, pipeline, delete}

  -- what the set is before the cap
  abbrev pub grown : (String → ℤ → Zset → Zset) → String → ℤ → Zset → Zset
  grown insert id t z = later_than (t -ℤ pos settings.ttl) (insert id t z)

  -- What a store did: the set that it left, and the ids whose entries it then asked Redis to delete.
  pub record Capped (ns : String) (zs : Zsets v ns) (s after : State) : Type 0 where
    pub id : String
    pub time : ℤ
    pub left : zs.zset after ≡ within settings.max_entries (grown zs.insert id time (zs.zset s))
    pub bounded : length (zs.zset after) ≤ settings.max_entries
    pub recent :
        All (λ (e : String × ℤ). leb_ℤ e.1 (time -ℤ pos settings.ttl) ≡ false) (zs.zset after)
    pub before : State
    pub deleted :
        after
        ≡ (delete_evicted v nearest settings ns
            (beyond settings.max_entries (grown zs.insert id time (zs.zset s)))
            before).1
