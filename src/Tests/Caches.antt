-- ===== src/Tests/Caches.antt =====
-- A cache with two entries: a Redis that keeps one recency set, and vectors of one number.
use llm_gateway_rag.Common.{
  List, ℕ, sym, ◌*◌, arith, true, false, if◌then◌else◌, String, Option, none, some, [], ◌∷◌, refl,
  map, str_eq, length,
}
use llm_gateway_rag.Common.Int.{ℤ, pos}
use llm_gateway_rag.Common.Fallible.{Fallible, pure, done_injective}
use llm_gateway_rag.Schemas.{ChatMessage, ChatRequest, Role}
use llm_gateway_rag.SemanticCache.{
  CachedCompletion, CacheHit, CacheKey, CacheServices, CacheSettings, split_last, cache_lookup,
  lookup_parts, fetch_hit,
}
use llm_gateway_rag.SemanticCache.BruteForce.{
  brute_force, nearest_of, live, expired, argmax, best_of, drop_expired, Answers,
  brute_force-Answers,
}
use llm_gateway_rag.SemanticCache.Lookups.{ServedAt, ServedFrom, cache_lookup-ServedFrom}
use llm_gateway_rag.SemanticCache.Caps.{Zset, Zsets, apply_all, replied}

record Entry : Type 0 where
  vector : ℕ
  payload : CachedCompletion

record Redis : Type 0 where
  set : Zset
  first : Entry

abbrev namespace : String
namespace = "acme"

abbrev vector_at : Redis → CacheKey → Option ℕ
vector_at s (CacheKey.entry ns i) = if str_eq i "a" then some s.first.vector else none
vector_at s _ = none

abbrev payload_at : Redis → CacheKey → Option CachedCompletion
payload_at s (CacheKey.entry ns i) = if str_eq i "a" then some s.first.payload else none
payload_at s _ = none

abbrev append_id : String → ℤ → Zset → Zset
append_id i t [] = (i, t) ∷ []
append_id i t (e ∷ z) = e ∷ append_id i t z

abbrev redis : CacheServices
redis = record {
  State = Redis;
  Vector = ℕ;
  embed = λ content. pure (length content);
  round4 = λ n. n;
  dot = λ x y. pos (x * y);
  digest = λ m. m.tenant;
  now = pure (pos 100);
  uuid = pure "c";
  zrevrange = λ k n s. (Fallible.done (map (λ (e : String × ℤ). e.0) s.set), s);
  get_vectors = λ ks s. (Fallible.done (map (vector_at s) ks), s);
  zrem = λ k ids. pure tt;
  get_payload = λ k s. (Fallible.done (payload_at s k), s);
  pipeline = λ cs s. (
    Fallible.done (replied append_id (CacheKey.recency namespace) cs s.set),
    record s { set = apply_all append_id (CacheKey.recency namespace) cs s.set },
  );
  delete = λ ks. pure 1;
  smembers = λ k. pure [];
  scan_entries = λ ns. pure [];
  scan_recency = pure [];
  scan_tenants = pure [];
}

abbrev question : ChatMessage
question = record { role = Role.user; content = 7 ∷ 7 ∷ [] }

abbrev request : ChatRequest
request = record {
  model = "small";
  messages = question ∷ [];
  temperature = none;
  max_tokens = none;
  stream = false;
  cache = true;
}

abbrev answer : CachedCompletion
answer = record {
  content = [];
  model = "m";
  finish_reason = "stop";
  prompt_tokens = 3;
  completion_tokens = 4;
  deployment = "d";
  cost_usd = 20;
}

abbrev settings : CacheSettings
settings = record { threshold = pos 5; ttl = 50; max_entries = 2 }

abbrev two_ids : Redis
two_ids = record {
  set = ("z", pos 10) ∷ ("a", pos 70) ∷ ("b", pos 80) ∷ [];
  first = record { vector = 4; payload = answer };
}

abbrev hit : CacheHit
hit = record { completion = answer; similarity = pos 8 }

brute_force-Answers_example :
    Answers redis 2 namespace 2 two_ids (some (CacheKey.entry namespace "a", pos 8))
unfolding brute_force nearest_of live expired argmax best_of drop_expired
brute_force-Answers_example = brute_force-Answers redis 2 namespace 2 two_ids _ refl

cache_lookup-ServedFrom_example :
    ServedFrom redis (brute_force redis 2) settings namespace request hit two_ids
unfolding cache_lookup split_last lookup_parts fetch_hit brute_force nearest_of live expired argmax
    best_of drop_expired
cache_lookup-ServedFrom_example =
    cache_lookup-ServedFrom redis (brute_force redis 2) settings namespace request hit two_ids refl

abbrev served :
    ServedAt redis
      (brute_force redis 2)
      settings
      namespace
      question.content
      hit
      (CacheKey.entry namespace "a")
      two_ids
unfolding brute_force nearest_of live expired argmax best_of drop_expired
served = record {
  vec = 2;
  similarity = pos 8;
  reported = refl;
  embedded = refl;
  found = refl;
  close = omega arith;
  read = refl;
}

abbrev earlier : List ChatMessage
earlier = []

abbrev sets : Zsets redis namespace
sets = record {
  zset = λ s. s.set;
  insert = append_id;
  executed = λ cs s reply h. refl;
  reported = λ cs s reply h. sym (done_injective h);
  embedded = λ content s. refl;
  named = λ s. refl;
  timed = λ s. refl;
  deleted = λ ids s. refl;
}
