-- ===== src/Retrieval.antt =====
-- Retrieval, app/rag/retrieval.py, over the chunk store of app/rag/vector_store.py. Qdrant, the embedding
-- model and the cross-encoder are a parameter; scores are integers of a fixed unit.
pub mod Ranking
pub mod Results
use llm_gateway_rag.Common.{
  ℕ, zero, suc, max, String, Bool, true, false, ◌&&◌, not, Option, none, some, List, [], ◌∷◌, ◌++◌,
  map, take, length, if◌then◌else◌, leb, ltb, ◌==◌,
}
use llm_gateway_rag.Common.Int.{ℤ, leb_ℤ}
use llm_gateway_rag.Common.Text.{Text, split, join_words}
use llm_gateway_rag.Common.Fallible.{Fallible, proceed, pure, ◌>>=◌, ◌>>◌}

pub record StoredChunk : Type 0 where
  pub doc_id : String
  pub chunk_index : ℕ
  pub text : Text
  pub title : Text
  pub page : Option ℕ
  pub heading : Option Text
  pub score : ℤ

pub record RetrievedChunk : Type 0 where
  pub chunk : StoredChunk
  pub rerank_score : Option ℤ

pub data Fusion : Type 0 where
  rrf dbsf : Fusion

-- The half of a hybrid query, with its tenant filter and its limit.
pub record Prefetch (Query : Type 0) : Type 0 where
  pub query : Query
  pub filter : String
  pub limit : ℕ

-- What is asked of Qdrant: the points closest to a vector, or those of fused halves.
pub data PointQuery (Vector Sparse : Type 0) : Type 0 where
  closest : Vector → String → ℕ → PointQuery Vector Sparse
  fused :
      List (Prefetch Vector)
      → List (Prefetch Sparse)
      → Fusion
      → String
      → ℕ
      → PointQuery Vector Sparse

pub record RetrievalServices : Type 1 where
  pub State : Type 0
  pub Vector : Type 0
  pub Sparse : Type 0
  pub embed_query : Text → State → Fallible Vector × State
  -- `query_terms`, none for a query without terms
  pub query_terms : Text → Option Sparse
  pub query_points : PointQuery Vector Sparse → State → Fallible (List StoredChunk) × State
  pub rerank_scores : Text → List Text → State → Fallible (List ℤ) × State

-- the retriever, with whether its store supports the lexical vector
pub record Retriever : Type 0 where
  pub has_reranker : Bool
  pub candidates : ℕ
  pub hybrid : Bool
  pub lexical : Bool
  pub fusion : Fusion
  pub rerank_max_words : ℕ

-- `Retriever.__init__`, for `hybrid`
abbrev pub is_hybrid : Retriever → Bool
is_hybrid r = r.hybrid && r.lexical

abbrev pub prefetch_floor : ℕ
prefetch_floor = 20

-- `_for_scoring`
unfoldable pub for_scoring : ℕ → Text → Text
for_scoring zero text = text
for_scoring (suc n) text =
    if leb (length (split text)) (suc n) then text else join_words (take (suc n) (split text))

-- `zip(hits, scores, strict=True)`, which raises on different lengths
unfoldable pub zip_strict : List StoredChunk → List ℤ → Option (List (StoredChunk × ℤ))
zip_strict [] [] = some []
zip_strict (h ∷ hs) (s ∷ ss) = elim (zip_strict hs ss) [
  | none ↦ none
  | some ps ↦ some ((h, s) ∷ ps)
]
zip_strict _ _ = none

-- `sorted(…, key=…, reverse=True)`, which keeps the order of equal scores
unfoldable pub insert_ranked : StoredChunk × ℤ → List (StoredChunk × ℤ) → List (StoredChunk × ℤ)
insert_ranked p [] = p ∷ []
insert_ranked p (q ∷ qs) =
    let rest = insert_ranked p qs in if leb_ℤ q.1 p.1 then p ∷ q ∷ qs else q ∷ rest

unfoldable pub rank : List (StoredChunk × ℤ) → List (StoredChunk × ℤ)
rank [] = []
rank (p ∷ ps) = insert_ranked p (rank ps)

abbrev pub unranked : StoredChunk → RetrievedChunk
unranked h = record { chunk = h; rerank_score = none }

abbrev pub with_score : StoredChunk × ℤ → RetrievedChunk
with_score p = record { chunk = p.0; rerank_score = some p.1 }

-- `[RetrievedChunk(h) for h in hits[:top_k]]`
abbrev pub in_order : ℕ → List StoredChunk → List RetrievedChunk
in_order top_k hits = map unranked (take top_k hits)

module _ (v : RetrievalServices) (r : Retriever) where
  open v use {State, Vector, Sparse, embed_query, query_terms, query_points, rerank_scores}

  -- `search` of the store
  abbrev pub search_store : String → Vector → ℕ → State → Fallible (List StoredChunk) × State
  search_store tenant_id vec limit = query_points (PointQuery.closest vec tenant_id limit)

  abbrev pub sparse_half : String → ℕ → Option Sparse → List (Prefetch Sparse)
  sparse_half tenant_id depth none = []
  sparse_half tenant_id depth (some terms) =
      record { query = terms; filter = tenant_id; limit = depth } ∷ []

  -- `hybrid_search`
  unfoldable pub hybrid_search :
      String → Vector → Text → ℕ → State → Fallible (List StoredChunk) × State
  hybrid_search tenant_id vec query limit =
      let depth = max limit prefetch_floor in
      if r.lexical
      then query_points (
          PointQuery.fused (record { query = vec; filter = tenant_id; limit = depth } ∷ [])
            (sparse_half tenant_id depth (query_terms query)) r.fusion tenant_id limit)
      else search_store tenant_id vec limit

  abbrev pub ranked_or_raise :
      ℕ → Option (List (StoredChunk × ℤ)) → State → Fallible (List RetrievedChunk) × State
  ranked_or_raise top_k none s = (Fallible.raised "ValueError", s)
  ranked_or_raise top_k (some ps) s = (Fallible.done (map with_score (take top_k (rank ps))), s)

  -- what follows the cross-encoder, which may be saturated
  unfoldable pub after_scores :
      ℕ → List StoredChunk → Fallible (List ℤ) → State → Fallible (List RetrievedChunk) × State
  after_scores top_k hits (Fallible.done scores) s =
      ranked_or_raise top_k (zip_strict hits scores) s
  after_scores top_k hits Fallible.overloaded s = (Fallible.done (in_order top_k hits), s)
  after_scores top_k hits (Fallible.raised e) s = (Fallible.raised e, s)

  unfoldable pub after_hits :
      Text → ℕ → Bool → List StoredChunk → State → Fallible (List RetrievedChunk) × State
  after_hits query top_k use_reranker [] s = (Fallible.done [], s)
  after_hits query top_k false (h ∷ hs) s = (Fallible.done (in_order top_k (h ∷ hs)), s)
  after_hits query top_k true (h ∷ hs) s =
      let (scores, s') =
        rerank_scores query
          (map (λ (x : StoredChunk). for_scoring r.rerank_max_words x.text) (h ∷ hs)) s in
      after_scores top_k (h ∷ hs) scores s'

  abbrev pub limit_for : ℕ → Bool → ℕ
  limit_for top_k use_reranker = if use_reranker then max r.candidates top_k else top_k

  -- `search`
  unfoldable pub search : String → Text → ℕ → Bool → State → Fallible (List RetrievedChunk) × State
  search tenant_id query top_k rerank = do
    let use_reranker = rerank && r.has_reranker
    vec ← embed_query query
    hits ←
        if is_hybrid r
        then hybrid_search tenant_id vec query (limit_for top_k use_reranker)
        else search_store tenant_id vec (limit_for top_k use_reranker)
    after_hits query top_k use_reranker hits
