-- ===== src/Chat/Chunks.antt =====
-- The chunks of a stream, app/gateway/service.py and app/gateway/schemas.py. Identifiers and times of
-- creation are left out.
use llm_gateway_rag.Common.{
  ◌≡◌, refl, ap, ◌∙◌, arith, ℕ, String, Bool, true, false, Option, none, some, List, [], ◌∷◌, ◌++◌,
  map, length, inl, inr, Option-cases,
}
use llm_gateway_rag.Common.Text.{Text}
use llm_gateway_rag.Common.Int.{ℤ}
use llm_gateway_rag.Routes.{Usage}
use llm_gateway_rag.Schemas.{Failure, Attempt}
use llm_gateway_rag.Rollout.{VariantName}
use llm_gateway_rag.SemanticCache.{CacheHit}
use llm_gateway_rag.Stream.{chop, chunk_size}
use llm_gateway_rag.Stream.Relay.{join}
use llm_gateway_rag.Stream.Pieces.{join-chop}
use llm_gateway_rag.Chat.{UsageOut, usage_out}

pub record StreamMeta : Type 0 where
  pub deployment : Option String
  pub cached : Bool
  pub route_variant : Option VariantName
  pub cache_similarity : Option ℤ
  pub cost_usd : ℕ
  pub attempts : List Attempt
  pub ttft : Option ℤ
  pub synthesized : Bool
  pub usage_estimated : Bool
  pub interrupted : Option Failure

-- `ChatChunk` with the delta and the finish reason of its one choice
pub record ChatChunk : Type 0 where
  pub model : String
  pub role : Bool
  pub content : Option Text
  pub finish_reason : Option String
  pub usage : Option UsageOut
  pub nexusgate : Option StreamMeta

abbrev pub usage_of : Usage → UsageOut
usage_of u = usage_out u.prompt_tokens u.completion_tokens

-- `_chunk` with text, with or without the role, and the last one
abbrev pub text_chunk : Bool → String → Text → ChatChunk
text_chunk role model t = record {
  model = model;
  role = role;
  content = some t;
  finish_reason = none;
  usage = none;
  nexusgate = none;
}

abbrev pub last_chunk : String → String → Usage → StreamMeta → ChatChunk
last_chunk model finish_reason usage meta = record {
  model = model;
  role = false;
  content = none;
  finish_reason = some finish_reason;
  usage = some (usage_of usage);
  nexusgate = some meta;
}

-- the chunks with text, of the pieces `… or [""]`
abbrev pub piece_chunks : String → List Text → List ChatChunk
piece_chunks model [] = text_chunk true model [] ∷ []
piece_chunks model (t ∷ ts) = text_chunk true model t ∷ map (text_chunk false model) ts

-- `_split`
unfoldable pub split_text : Text → List Text
split_text t = chop chunk_size (length t) t

abbrev pub hit_meta : CacheHit → StreamMeta
hit_meta hit = record {
  deployment = none;
  cached = true;
  route_variant = none;
  cache_similarity = some hit.similarity;
  cost_usd = 0;
  attempts = [];
  ttft = none;
  synthesized = false;
  usage_estimated = false;
  interrupted = none;
}

abbrev pub replay_last : CacheHit → ChatChunk
replay_last hit =
    let cached = hit.completion in
    last_chunk cached.model cached.finish_reason
      (record {
        prompt_tokens = cached.prompt_tokens;
        completion_tokens = cached.completion_tokens;
      })
      (hit_meta hit)

-- the chunks of `_replay_cached`
unfoldable pub replay_chunks : CacheHit → List ChatChunk
replay_chunks hit =
    piece_chunks hit.completion.model (split_text hit.completion.content) ++ replay_last hit ∷ []

-- What a client reads, the texts of the chunks one after the other.
abbrev pub text_of : List ChatChunk → Text
text_of [] = []
text_of (k ∷ ks) = elim k.content [ none ↦ text_of ks | some t ↦ t ++ text_of ks ]

pub text_of-last :
    (ks : List ChatChunk) (k : ChatChunk) → k.content ≡ none → text_of (ks ++ k ∷ []) ≡ text_of ks
text_of-last [] k h = rw h refl
text_of-last (j ∷ ks) k h = elim (Option-cases j.content) [
  | inl p ↦ rw p (text_of-last ks k h)
  | inr (t, p) ↦ rw p (ap (λ r. t ++ r) (text_of-last ks k h))
]

text_of-map :
    (model : String) (ts : List Text) (k : ChatChunk)
    → k.content ≡ none
    → text_of (map (text_chunk false model) ts ++ k ∷ []) ≡ join ts
unfolding join
text_of-map model [] k h = rw h refl
text_of-map model (t ∷ ts) k h = ap (λ r. t ++ r) (text_of-map model ts k h)

text_of-piece_chunks :
    (model : String) (ts : List Text) (k : ChatChunk)
    → k.content ≡ none
    → text_of (piece_chunks model ts ++ k ∷ []) ≡ join ts
unfolding join
text_of-piece_chunks model [] k h = rw h refl
text_of-piece_chunks model (t ∷ ts) k h = ap (λ r. t ++ r) (text_of-map model ts k h)

-- A client that streams a cached completion reads exactly its content.
pub text_of-replay_chunks : (hit : CacheHit) → text_of (replay_chunks hit) ≡ hit.completion.content
unfolding replay_chunks split_text
text_of-replay_chunks hit =
    let t = hit.completion.content in
    text_of-piece_chunks hit.completion.model (chop chunk_size (length t) t) _ refl
    ∙ (join-chop chunk_size (length t) t (omega arith) (omega arith)).0
