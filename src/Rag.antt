-- ===== src/Rag.antt =====
-- Grounded answers, app/rag/service.py: retrieval, the prompt, the chat service, and the citations. The text of
-- the prompt and the numbers that an answer cites, which a regular expression finds, are parameters.
pub mod Grounded
use llm_gateway_rag.Common.{
  ℕ, suc, String, Bool, true, false, ◌||◌, Option, none, some, List, [], ◌∷◌, ◌==◌, if◌then◌else◌,
}
use llm_gateway_rag.Common.Text.{Text}
use llm_gateway_rag.Common.Fallible.{Fallible}
use llm_gateway_rag.Schemas.{ChatRequest, ChatMessage, Role}
use llm_gateway_rag.Environment.{Environment}
use llm_gateway_rag.Keys.{Principal}
use llm_gateway_rag.Retrieval.{RetrievedChunk, RetrievalServices, Retriever, search}
use llm_gateway_rag.Chat.{
  ChatResponse, UsageOut, GatewayMeta, Answer, answer_of, Collaborators, World, proceed, pure,
  ◌>>=◌,
}
use llm_gateway_rag.Chat.Complete.{complete}

pub record AnswerRequest : Type 0 where
  pub question : Text
  pub model : String
  pub top_k : ℕ
  pub rerank : Bool
  pub temperature : Option ℕ
  pub max_tokens : Option ℕ
  pub cache : Bool

pub record Citation : Type 0 where
  pub n : ℕ
  pub doc_id : String
  pub title : Text
  pub chunk_index : ℕ
  pub page : Option ℕ
  pub heading : Option Text
  pub text : Text
  pub cited : Bool

pub record AnswerResponse : Type 0 where
  pub answer : Text
  pub citations : List Citation
  pub usage : Option UsageOut
  pub nexusgate : Option GatewayMeta

abbrev pub contains : List ℕ → ℕ → Bool
contains [] n = false
contains (k ∷ ks) n = k == n || contains ks n

abbrev pub citation : List ℕ → ℕ → RetrievedChunk → Citation
citation cited n h = record {
  n = n;
  doc_id = h.chunk.doc_id;
  title = h.chunk.title;
  chunk_index = h.chunk.chunk_index;
  page = h.chunk.page;
  heading = h.chunk.heading;
  text = h.chunk.text;
  cited = contains cited n;
}

-- the citations, of `enumerate(hits, start=n)`
unfoldable pub citations_from : List ℕ → ℕ → List RetrievedChunk → List Citation
citations_from cited n [] = []
citations_from cited n (h ∷ hs) = citation cited n h ∷ citations_from cited (suc n) hs

-- the texts of the service: NO_CONTEXT_ANSWER, the system prompt of `build_messages`, `cited_numbers`
pub record Wording : Type 0 where
  pub no_context_answer : Text
  pub system_prompt : List RetrievedChunk → Text
  pub cited_numbers : Text → List ℕ

module _ (e : Environment) (c : Collaborators) (v : RetrievalServices) (r : Retriever)
    (w : Wording) where
  abbrev pub RagWorld : Type 0
  RagWorld = World e c × v.State

  -- `build_messages`
  abbrev pub build_messages : Text → List RetrievedChunk → List ChatMessage
  build_messages question hits =
      record { role = Role.system; content = w.system_prompt hits }
      ∷ record { role = Role.user; content = question }
      ∷ []

  abbrev pub chat_request : AnswerRequest → List RetrievedChunk → ChatRequest
  chat_request request hits = record {
    model = request.model;
    messages = build_messages request.question hits;
    temperature = request.temperature;
    max_tokens = request.max_tokens;
    stream = false;
    cache = request.cache;
  }

  abbrev pub no_context : AnswerResponse
  no_context = record {
    answer = w.no_context_answer;
    citations = [];
    usage = none;
    nexusgate = none;
  }

  abbrev pub grounded : List RetrievedChunk → ChatResponse → AnswerResponse
  grounded hits response = record {
    answer = response.content;
    citations = citations_from (w.cited_numbers response.content) 1 hits;
    usage = some response.usage;
    nexusgate = some response.nexusgate;
  }

  abbrev pub searched :
      (v.State → Fallible (List RetrievedChunk) × v.State)
      → RagWorld
      → Answer (List RetrievedChunk) × RagWorld
  searched m (s, x) = (answer_of (m x).0, (s, (m x).1))

  abbrev pub completed :
      (World e c → Answer ChatResponse × World e c) → RagWorld → Answer ChatResponse × RagWorld
  completed m (s, x) = ((m s).0, ((m s).1, x))

  unfoldable pub answer_from :
      Principal → AnswerRequest → List RetrievedChunk → RagWorld → Answer AnswerResponse × RagWorld
  answer_from principal request [] = pure no_context
  answer_from principal request (h ∷ hs) = do
    response ← completed (complete e c principal (chat_request request (h ∷ hs)))
    pure (grounded (h ∷ hs) response)

  -- `answer`
  unfoldable pub answer : Principal → AnswerRequest → RagWorld → Answer AnswerResponse × RagWorld
  answer principal request = do
    hits ← searched (search v r principal.tenant_id request.question request.top_k request.rerank)
    answer_from principal request hits
