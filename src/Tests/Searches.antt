-- ===== src/Tests/Searches.antt =====
-- A search whose cross-encoder prefers the second of three passages.
use llm_gateway_rag.Common.{ℕ, ◌≤◌, ◌≡◌, refl, true, none, some, List, [], ◌∷◌, length, ◌&&◌}
use llm_gateway_rag.Common.Int.{pos}
use llm_gateway_rag.Common.Fallible.{Fallible, pure}
use llm_gateway_rag.Retrieval.{
  StoredChunk, RetrievedChunk, PointQuery, RetrievalServices, Retriever, Fusion, limit_for, search,
  after_hits, after_scores, for_scoring, zip_strict, insert_ranked, rank, with_score, hybrid_search,
}
use llm_gateway_rag.Retrieval.Results.{AsksFor, Gives, search-Gives}

abbrev passage : ℕ → StoredChunk
passage i = record {
  doc_id = "d";
  chunk_index = i;
  text = 97 ∷ [];
  title = 116 ∷ [];
  page = none;
  heading = none;
  score = pos i;
}

abbrev pub qdrant : RetrievalServices
qdrant = record {
  State = ℕ;
  Vector = ℕ;
  Sparse = ℕ;
  embed_query = λ t. pure 3;
  query_terms = λ t. some 1;
  query_points = λ q. pure (passage 0 ∷ passage 1 ∷ passage 2 ∷ []);
  rerank_scores = λ q ts. pure (pos 4 ∷ pos 9 ∷ pos 4 ∷ []);
}

abbrev pub retriever : Retriever
retriever = record {
  has_reranker = true;
  candidates = 20;
  hybrid = true;
  lexical = true;
  fusion = Fusion.rrf;
  rerank_max_words = 0;
}

abbrev pub best_two : List RetrievedChunk
best_two = with_score (passage 1, pos 9) ∷ with_score (passage 0, pos 4) ∷ []

search-Gives_example :
    (q : PointQuery ℕ ℕ) × (hits : List StoredChunk) × AsksFor qdrant retriever "acme"
      (limit_for qdrant retriever 2 (true && retriever.has_reranker))
      q
    × ((qdrant.query_points q (qdrant.embed_query (113 ∷ []) 0).1).0 ≡ Fallible.done hits)
    × Gives qdrant retriever
        (113 ∷ [])
        2
        (true && retriever.has_reranker)
        hits
        (qdrant.query_points q (qdrant.embed_query (113 ∷ []) 0).1).1
        best_two
    × (length best_two ≤ 2)
unfolding search hybrid_search after_hits after_scores for_scoring zip_strict insert_ranked rank
search-Gives_example = search-Gives qdrant retriever "acme" (113 ∷ []) 2 true 0 best_two refl
