-- ===== src/Chat/Streaming/Accounts.antt =====
-- How `ChatService.stream` of app/gateway/service.py accounts for a stream, however it stands.
use llm_gateway_rag.Common.{◌≡◌, ◌⊎◌, String, Bool, true, Option, List, [], ◌∷◌}
use llm_gateway_rag.Common.Text.{Text}
use llm_gateway_rag.Schemas.{ChatRequest}
use llm_gateway_rag.Environment.{Environment}
use llm_gateway_rag.Rollout.{Variant}
use llm_gateway_rag.Metering.{Spending}
use llm_gateway_rag.SemanticCache.{CachedCompletion, CacheHit}
use llm_gateway_rag.Stream.Relay.{Relay}
use llm_gateway_rag.Chat.{Collaborators, saved, World}
use llm_gateway_rag.Chat.Books.{Books, told_of, Adds}
use llm_gateway_rag.Chat.Chunks.{ChatChunk, replay_last, text_of}
use llm_gateway_rag.Chat.Streaming.Books.{AtMostOne, CachedAtMost, Settled}
use llm_gateway_rag.Chat.Streaming.{StreamEnd}

module _ (e : Environment) (c : Collaborators) (b : Books c) where
  -- The books of a stream, by how it stands.
  abbrev pub Kept :
      String
      → ChatRequest
      → Option Variant
      → c.State
      → (List ChatChunk × StreamEnd) × World e c
      → Type 0
  Kept key_id request variant s ((chunks, StreamEnd.finished k), w) =
      Settled e c b key_id request variant (text_of chunks) k s w
      ⊎ ((hit : CacheHit) × (k ≡ replay_last hit)
          × Adds e c b ((key_id, saved hit.completion) ∷ []) (told_of c.has_rollout variant true) []
              s w.1)
  Kept key_id request variant s ((chunks, StreamEnd.waiting), w) = Adds e c b [] [] [] s w.1
  Kept key_id request variant s ((chunks, StreamEnd.left), w) =
      (ms : List (String × Spending)) × AtMostOne e c b key_id ms × Adds e c b ms [] [] s w.1
  Kept key_id request variant s ((chunks, StreamEnd.broken err), w) =
      (ms : List (String × Spending)) × (ts : List (Variant × Bool)) × (cs : List CachedCompletion)
      × AtMostOne e c b key_id ms
      × CachedAtMost e c b request (text_of chunks) cs
      × Adds e c b ms ts cs s w.1
