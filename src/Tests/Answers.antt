-- ===== src/Tests/Answers.antt =====
-- A grounded answer, from the search, the chat service and the router of the other tests.
use llm_gateway_rag.Common.{◌≤◌, ◌≡◌, refl, true, none, List, [], ◌∷◌, length}
use llm_gateway_rag.Common.Int.{◌-ℤ◌}
use llm_gateway_rag.Common.Dict.{lookup, insert}
use llm_gateway_rag.Common.Fallible.{Fallible}
use llm_gateway_rag.Breaker
use llm_gateway_rag.Routes.{compute_cost}
use llm_gateway_rag.Router.{admit, breaker_state, failed, succeeded, prepare, inject}
use llm_gateway_rag.Router.Retry.{
  back_off, after_failure, after_call, after_tries, try_deployment, retries, walk,
}
use llm_gateway_rag.Router.Complete.{
  call_provider, priced, complete_on as route_on, complete as route,
}
use llm_gateway_rag.Retrieval.{
  RetrievedChunk, search, after_hits, after_scores, for_scoring, zip_strict, insert_ranked, rank,
  hybrid_search,
}
use llm_gateway_rag.Chat.{
  ChatResponse, Answer, select_table, record_variant, lookup_cached, store_cached, hit_for,
}
use llm_gateway_rag.Chat.Complete.{
  meter_and_answer, after_routing, answer_with, complete_on, report, complete_by, complete,
}
use llm_gateway_rag.Rag.{
  AnswerRequest, AnswerResponse, Wording, RagWorld, grounded, chat_request, answer_from, answer,
}
use llm_gateway_rag.Rag.Grounded.{Grounds, answer-Grounds}
use llm_gateway_rag.Tests.Bench.{bench}
use llm_gateway_rag.Tests.Chats.{logging, caller, start}
use llm_gateway_rag.Tests.Searches.{qdrant, retriever, best_two}

abbrev wording : Wording
wording = record {
  no_context_answer = 63 ∷ [];
  system_prompt = λ hits. 115 ∷ [];
  cited_numbers = λ t. 2 ∷ [];
}

abbrev request : AnswerRequest
request = record {
  question = 113 ∷ [];
  model = "default";
  top_k = 2;
  rerank = true;
  temperature = none;
  max_tokens = none;
  cache = true;
}

abbrev rag_world : RagWorld bench logging qdrant retriever wording
rag_world = (start, 0)

abbrev response : Answer ChatResponse → AnswerResponse → AnswerResponse
response (Answer.answered r) a = grounded bench logging qdrant retriever wording best_two r
response (Answer.failed err) a = a

abbrev reply : AnswerResponse
reply =
    response
      (complete bench logging caller
        (chat_request bench logging qdrant retriever wording request best_two) start).0
      (record { answer = []; citations = []; usage = none; nexusgate = none })

answer-Grounds_example :
    (hits : List RetrievedChunk) × ((search qdrant retriever caller.tenant_id request.question 2
        true 0).0
      ≡ Fallible.done hits)
    × (length hits ≤ 2)
    × Grounds bench logging qdrant retriever wording caller request hits start reply
        (answer bench logging qdrant retriever wording caller request rag_world).1.0
unfolding answer answer_from search hybrid_search after_hits after_scores for_scoring zip_strict
    insert_ranked rank complete complete_by report complete_on answer_with after_routing
    meter_and_answer select_table record_variant lookup_cached store_cached hit_for route route_on
    walk try_deployment retries back_off after_call after_failure after_tries priced call_provider
    prepare inject admit breaker_state failed succeeded lookup insert compute_cost
    Breaker.allow_request Breaker.read_state Breaker.record_failure Breaker.record_success ◌-ℤ◌
answer-Grounds_example =
    answer-Grounds bench logging qdrant retriever wording caller request rag_world reply refl
