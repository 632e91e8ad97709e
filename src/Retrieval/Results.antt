-- ===== src/Retrieval/Results.antt =====
-- What `Retriever.search` of app/rag/retrieval.py gives.
use llm_gateway_rag.Common.{
  ◌≡◌, refl, sym, ◌∙◌, ap, ℕ, zero, suc, ◌≤◌, max, ◌⊎◌, inl, inr, Bool, true, false, ◌&&◌, Option,
  none, some, String, List, [], ◌∷◌, take, map, length, length-take, All, Bool-cases, if◌then◌else◌,
  arith,
}
use mathlib.Core.Path.{subst}
use mathlib.Core.List.{Permᴰ}
use llm_gateway_rag.Common.Int.{ℤ}
use llm_gateway_rag.Common.Text.{Text}
use llm_gateway_rag.Common.Fallible.{Fallible, proceed-done, done_injective}
use llm_gateway_rag.Retrieval.{
  StoredChunk, RetrievedChunk, RetrievalServices, Retriever, zip_strict, rank, unranked, with_score,
  for_scoring, in_order, is_hybrid, hybrid_search, search_store, ranked_or_raise, after_scores,
  after_hits, limit_for, search, Prefetch, PointQuery, sparse_half, prefetch_floor,
}
use llm_gateway_rag.Retrieval.Ranking.{IsRanked, rank-IsRanked, rank_permutes}

length-map : {A B : Type 0} (f : A → B) (xs : List A) → length (map f xs) ≡ length xs
length-map f [] = refl
length-map f (x ∷ xs) = omega (arith, length-map f xs)

module _ (v : RetrievalServices) (r : Retriever) where
  open v use {State, embed_query, query_points, rerank_scores}

  -- what the cross-encoder comes to on the texts of these hits
  abbrev pub scoring : Text → List StoredChunk → State → Fallible (List ℤ)
  scoring query hits s =
      (rerank_scores query (map (λ (x : StoredChunk). for_scoring r.rerank_max_words x.text) hits)
        s).0

  -- The passages in the order of the store without scores, if none are wanted, there are none or the
  -- cross-encoder is overloaded; or the best of a ranking of all hits by the scores it gave them.
  abbrev pub Gives : Text → ℕ → Bool → List StoredChunk → State → List RetrievedChunk → Type 0
  Gives query top_k use_reranker hits s result =
      ((result ≡ in_order top_k hits)
        × ((use_reranker ≡ false) ⊎ (hits ≡ []) ⊎ (scoring query hits s ≡ Fallible.overloaded)))
      ⊎ ((scores : List ℤ) × (pairs : List (StoredChunk × ℤ)) × (ranked : List (StoredChunk × ℤ))
          × (use_reranker ≡ true)
          × (scoring query hits s ≡ Fallible.done scores)
          × (zip_strict hits scores ≡ some pairs)
          × Permᴰ pairs ranked
          × IsRanked ranked
          × (result ≡ map with_score (take top_k ranked)))

  Gives-length :
      (query : Text) (top_k : ℕ) (use_reranker : Bool) (hits : List StoredChunk) (s : State)
      (result : List RetrievedChunk)
      → Gives query top_k use_reranker hits s result
      → length result ≤ top_k
  Gives-length query top_k use_reranker hits s result (inl (e, why)) =
      subst (λ x. length x ≤ top_k) (sym e)
        (omega (arith, length-map unranked (take top_k hits), length-take top_k hits))
  Gives-length query top_k use_reranker hits s result
        (inr (scores, pairs, ranked, on, scored, z, p, sorted, e)) =
      subst (λ x. length x ≤ top_k) (sym e)
        (omega (arith, length-map with_score (take top_k ranked), length-take top_k ranked))

  ranked_or_raise-Gives :
      (query : Text) (top_k : ℕ) (hits : List StoredChunk) (scores : List ℤ)
      (o : Option (List (StoredChunk × ℤ))) (before s : State) (result : List RetrievedChunk)
      → scoring query hits before ≡ Fallible.done scores
      → zip_strict hits scores ≡ o
      → (ranked_or_raise v r top_k o s).0 ≡ Fallible.done result
      → Gives query top_k true hits before result
  ranked_or_raise-Gives query top_k hits scores none before s result g z h = cc
  ranked_or_raise-Gives query top_k hits scores (some ps) before s result g z h =
      inr (
        scores,
        ps,
        rank ps,
        refl,
        g,
        z,
        rank_permutes ps,
        rank-IsRanked ps,
        sym (done_injective h),
      )

  after_scores-Gives :
      (query : Text) (top_k : ℕ) (hits : List StoredChunk) (scores : Fallible (List ℤ))
      (before s : State) (result : List RetrievedChunk)
      → scoring query hits before ≡ scores
      → (after_scores v r top_k hits scores s).0 ≡ Fallible.done result
      → Gives query top_k true hits before result
  unfolding after_scores
  after_scores-Gives query top_k hits (Fallible.done scores) before s result g h =
      ranked_or_raise-Gives query top_k hits scores (zip_strict hits scores) before s result g refl
        h
  after_scores-Gives query top_k hits Fallible.overloaded before s result g h =
      inl (sym (done_injective h), inr (inr g))
  after_scores-Gives query top_k hits (Fallible.raised e) before s result g h = cc

  after_hits-Gives :
      (query : Text) (top_k : ℕ) (use_reranker : Bool) (hits : List StoredChunk) (s : State)
      (result : List RetrievedChunk)
      → (after_hits v r query top_k use_reranker hits s).0 ≡ Fallible.done result
      → Gives query top_k use_reranker hits s result
  unfolding after_hits
  after_hits-Gives query top_k use_reranker [] s result h =
      inl (sym (done_injective h) ∙ sym (nothing top_k), inr (inl refl))
    where
      nothing : (n : ℕ) → in_order n [] ≡ []
      nothing zero = refl
      nothing (suc n) = refl
  after_hits-Gives query top_k false (x ∷ xs) s result h = inl (sym (done_injective h), inl refl)
  after_hits-Gives query top_k true (x ∷ xs) s result h =
      after_scores-Gives query top_k (x ∷ xs) _ s _ result refl h

  -- Every half of a query has the filter of the tenant and the query has the limit.
  abbrev pub AsksFor : String → ℕ → PointQuery v.Vector v.Sparse → Type 0
  AsksFor tenant_id limit (PointQuery.closest vec filter n) = (filter ≡ tenant_id) × (n ≡ limit)
  AsksFor tenant_id limit (PointQuery.fused dense sparse fusion filter n) =
      All (λ (p : Prefetch v.Vector). (p.filter ≡ tenant_id) × (limit ≤ p.limit)) dense
      × All (λ (p : Prefetch v.Sparse). (p.filter ≡ tenant_id) × (limit ≤ p.limit)) sparse
      × (filter ≡ tenant_id)
      × (n ≡ limit)

  sparse_half-AsksFor :
      (tenant_id : String) (limit depth : ℕ) (o : Option v.Sparse)
      → limit ≤ depth
      → All
          (λ (p : Prefetch v.Sparse). (p.filter ≡ tenant_id) × (limit ≤ p.limit))
          (sparse_half v r tenant_id depth o)
  sparse_half-AsksFor tenant_id limit depth none le = tt
  sparse_half-AsksFor tenant_id limit depth (some terms) le = ((refl, le), tt)

  hybrid_search_asks :
      (tenant_id : String) (vec : v.Vector) (query : Text) (limit : ℕ) (s : State)
      → (q : PointQuery v.Vector v.Sparse) × AsksFor tenant_id limit q
        × (hybrid_search v r tenant_id vec query limit s ≡ query_points q s)
  unfolding hybrid_search
  hybrid_search_asks tenant_id vec query limit s = elim (Bool-cases r.lexical) [
    | inl e ↦ rw e (
      _,
      (
        ((refl, omega arith), tt),
        sparse_half-AsksFor tenant_id limit (max limit prefetch_floor) (v.query_terms query)
            (omega arith),
        refl,
        refl,
      ),
      refl,
    )
    | inr e ↦ rw e (PointQuery.closest vec tenant_id limit, (refl, refl), refl)
  ]

  stored_asks :
      (tenant_id : String) (vec : v.Vector) (query : Text) (limit : ℕ) (s : State)
      → (q : PointQuery v.Vector v.Sparse) × AsksFor tenant_id limit q
        × ((if is_hybrid r
                then hybrid_search v r tenant_id vec query limit
                else search_store v r tenant_id vec limit)
              s
            ≡ query_points q s)
  stored_asks tenant_id vec query limit s = elim (Bool-cases (is_hybrid r)) [
    | inl e ↦ rw e (hybrid_search_asks tenant_id vec query limit s)
    | inr e ↦ rw e (PointQuery.closest vec tenant_id limit, (refl, refl), refl)
  ]

  -- A search that answers asked Qdrant one query, every half of which has the tenant's filter, for at least
  -- top_k passages, and gives at most top_k of the passages that came: the first ones in the order of the
  -- store without scores, if reranking is off, nothing came or the cross-encoder is overloaded; or the best of a
  -- ranking of all of them by the scores that the cross-encoder gave them.
  pub search-Gives :
      (tenant_id : String) (query : Text) (top_k : ℕ) (rerank : Bool) (s : State)
      (result : List RetrievedChunk)
      → (search v r tenant_id query top_k rerank s).0 ≡ Fallible.done result
      → (q : PointQuery v.Vector v.Sparse) × (hits : List StoredChunk) × AsksFor tenant_id
          (limit_for v r top_k (rerank && r.has_reranker))
          q
        × ((query_points q (embed_query query s).1).0 ≡ Fallible.done hits)
        × Gives query top_k
            (rerank && r.has_reranker)
            hits
            (query_points q (embed_query query s).1).1
            result
        × (length result ≤ top_k)
  unfolding search
  search-Gives tenant_id query top_k rerank s result h =
      let use_reranker = rerank && r.has_reranker in
      let limit = limit_for v r top_k use_reranker in
      let (vec, h1, h2) = proceed-done _ (embed_query query s).0 (embed_query query s).1 h in
      let (q, asked, same) = stored_asks tenant_id vec query limit (embed_query query s).1 in
      let (hits, h3, h4) = proceed-done (after_hits v r query top_k use_reranker) _ _ h2 in
      let given =
        subst (λ st. Gives query top_k use_reranker hits st result) (ap (λ x. x.1) same)
          (after_hits-Gives query top_k use_reranker hits _ result h4) in
      (
        q,
        hits,
        asked,
        ap (λ x. x.0) (sym same) ∙ h3,
        given,
        Gives-length query top_k use_reranker hits _ result given,
      )
