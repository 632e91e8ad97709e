-- ===== src/Rag/Grounded.antt =====
-- What the answers of app/rag/service.py rest on.
use llm_gateway_rag.Common.{
  ◌≡◌, ◌≢◌, refl, sym, ap, ℕ, suc, ◌≤◌, ◌⊎◌, inl, inr, List, [], ◌∷◌, length,
}
use mathlib.Core.Path.{subst}
use llm_gateway_rag.Common.Fallible.{Fallible}
use llm_gateway_rag.Environment.{Environment}
use llm_gateway_rag.Keys.{Principal}
use llm_gateway_rag.Retrieval.{RetrievedChunk, RetrievalServices, Retriever, search}
use llm_gateway_rag.Retrieval.Results.{search-Gives}
use llm_gateway_rag.Chat.{ChatResponse, Answer, answer_of, Collaborators, World, proceed, pure}
use llm_gateway_rag.Chat.Complete.{complete}
use llm_gateway_rag.Rag.{
  AnswerRequest, Citation, AnswerResponse, Wording, citations_from, RagWorld, chat_request,
  no_context, grounded, answer_from, answer,
}

-- One citation for each passage, numbered from n.
abbrev pub Cites : ℕ → List RetrievedChunk → List Citation → Type 0
Cites n [] [] = Unit
Cites n (h ∷ hs) (k ∷ ks) =
    (k.n ≡ n) × (k.text ≡ h.chunk.text) × (k.doc_id ≡ h.chunk.doc_id) × Cites (suc n) hs ks
Cites n _ _ = ⊥

citations_from-Cites :
    (cited : List ℕ) (n : ℕ) (hs : List RetrievedChunk) → Cites n hs (citations_from cited n hs)
unfolding citations_from
citations_from-Cites cited n [] = tt
citations_from-Cites cited n (h ∷ hs) = (refl, refl, refl, citations_from-Cites cited (suc n) hs)

module _ (e : Environment) (c : Collaborators) (v : RetrievalServices) (r : Retriever)
    (w : Wording) where
  -- Without passages the chat service is left alone; else the answer is its completion, which cites every
  -- passage by its number.
  abbrev pub Grounds :
      Principal
      → AnswerRequest
      → List RetrievedChunk
      → World e c
      → AnswerResponse
      → World e c
      → Type 0
  Grounds principal request hits s a after =
      ((hits ≡ []) × (a ≡ no_context e c v r w) × (after ≡ s))
      ⊎ ((hits ≢ [])
          × (response : ChatResponse) × ((complete e c principal
                (chat_request e c v r w request hits) s).0
              ≡ Answer.answered response)
          × (after ≡ (complete e c principal (chat_request e c v r w request hits) s).1)
          × (a.answer ≡ response.content)
          × Cites 1 hits a.citations)

  completed-Grounds :
      (principal : Principal) (request : AnswerRequest) (hits : List RetrievedChunk) (s : World e c)
      (o : Answer ChatResponse) (after : RagWorld e c v r w) (a : AnswerResponse)
      → (complete e c principal (chat_request e c v r w request hits) s).0 ≡ o
      → hits ≢ []
      → after.0 ≡ (complete e c principal (chat_request e c v r w request hits) s).1
      → (proceed (λ response. pure (grounded e c v r w hits response)) o after).0
        ≡ Answer.answered a
      → Grounds principal request hits s a
          (proceed {B = AnswerResponse}
            (λ response. pure (grounded e c v r w hits response))
            o
            after).1.0
  completed-Grounds principal request hits s (Answer.failed err) after a p some_hit q h = cc
  completed-Grounds principal request hits s (Answer.answered response) after a p some_hit q h =
      let same : grounded e c v r w hits response ≡ a = cc in
      inr (
        some_hit,
        response,
        p,
        q,
        ap (λ (x : AnswerResponse). x.answer) (sym same),
        subst (λ (x : AnswerResponse). Cites 1 hits x.citations) same
            (citations_from-Cites (w.cited_numbers response.content) 1 hits),
      )

  answer_from-Grounds :
      (principal : Principal) (request : AnswerRequest) (hits : List RetrievedChunk)
      (s : RagWorld e c v r w) (a : AnswerResponse)
      → (answer_from e c v r w principal request hits s).0 ≡ Answer.answered a
      → Grounds principal request hits s.0 a (answer_from e c v r w principal request hits s).1.0
  unfolding answer_from
  answer_from-Grounds principal request [] s a h = inl (refl, cc, refl)
  answer_from-Grounds principal request (x ∷ xs) s a h =
      completed-Grounds principal request (x ∷ xs) s.0 _ _ a refl (λ e. cc) refl h

  searched-Grounds :
      (principal : Principal) (request : AnswerRequest) (found : Fallible (List RetrievedChunk))
      (s : RagWorld e c v r w) (a : AnswerResponse)
      → (proceed (answer_from e c v r w principal request) (answer_of found) s).0
        ≡ Answer.answered a
      → (hits : List RetrievedChunk) × (found ≡ Fallible.done hits)
        × Grounds principal request hits s.0 a
            (proceed (answer_from e c v r w principal request) (answer_of found) s).1.0
  searched-Grounds principal request (Fallible.done hits) s a h =
      (hits, refl, answer_from-Grounds principal request hits s a h)
  searched-Grounds principal request Fallible.overloaded s a h = cc
  searched-Grounds principal request (Fallible.raised err) s a h = cc

  -- An answer rests on at most top_k passages of a search of the caller's tenant. Without any, it says so, and
  -- the chat service is not called; else it is the content of the completion of one chat request, with one
  -- citation for each passage, numbered from 1 in their order.
  pub answer-Grounds :
      (principal : Principal) (request : AnswerRequest) (s : RagWorld e c v r w)
      (a : AnswerResponse)
      → (answer e c v r w principal request s).0 ≡ Answer.answered a
      → (hits : List RetrievedChunk) × ((search v r principal.tenant_id request.question
            request.top_k request.rerank s.1).0
          ≡ Fallible.done hits)
        × (length hits ≤ request.top_k)
        × Grounds principal request hits s.0 a (answer e c v r w principal request s).1.0
  unfolding answer
  answer-Grounds principal request s a h =
      let run = search v r principal.tenant_id request.question request.top_k request.rerank s.1 in
      let (hits, found, grounds) = searched-Grounds principal request run.0 (s.0, run.1) a h in
      let given =
        search-Gives v r principal.tenant_id request.question request.top_k request.rerank s.1 hits
          found in
      (hits, found, given.5, grounds)
