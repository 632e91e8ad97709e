-- ===== src/Tests/Research.antt =====
-- A research run whose reviewer always finds a problem.
use llm_gateway_rag.Common.{false, none, some, [], ◌∷◌, arith}
use llm_gateway_rag.Common.Int.{pos}
use llm_gateway_rag.Agents.{run}
use llm_gateway_rag.Agents.Paths.{Follows, run-Follows}
use llm_gateway_rag.Agents.State.{Services, Hit, Answer}
use llm_gateway_rag.Agents.Research.{ResearchRequest, build_graph, begin_research, research}
use llm_gateway_rag.Agents.Research.Settles.{Responds, research-Responds}

abbrev passage : Hit
passage = record {
  doc_id = "d";
  chunk_index = 0;
  title = 100 ∷ [];
  page = none;
  text = 120 ∷ [];
  vector_score = pos 1;
  rerank_score = some (pos 5);
}

-- every reply is "no", every search finds one passage
abbrev critic : Services
critic = record {
  State = Unit;
  Principal = Unit;
  complete = λ c w. (
    Answer.given
        (record { usage = none; cost_usd = some 3; cut = false; content = 110 ∷ 111 ∷ [] }),
    w,
  );
  search = λ p q k w. (Answer.given (passage ∷ []), w);
  plan_system = λ n. [];
  draft_system = λ c. c;
  critique_system = λ c. c;
  critique_user = λ q d. d;
  revise_system = λ c. c;
  revise_user = λ q d i. i;
  strip = λ t. t;
  splitlines = λ t. t ∷ [];
  strip_bullets = λ t. t;
  strip_marker = λ t. t;
  bare_upper = λ t. t;
  bare_upper_marks = λ t. t;
  numeral = λ n. n ∷ [];
}

abbrev request : ResearchRequest
request = record {
  question = 113 ∷ [];
  model = "smart";
  top_k = 3;
  max_searches = 2;
  max_revisions = 2;
  use_cache = false;
}

research-Responds_example : Responds critic [] (research critic [] 8 tt request tt).0.0
research-Responds_example = research-Responds critic [] 8 tt request tt (omega arith)

run-Follows_example :
    Follows
      (build_graph critic [] 5)
      (run (build_graph critic [] 5) (begin_research critic [] tt request, tt)).0
run-Follows_example =
    run-Follows (build_graph critic [] 5) (begin_research critic [] tt request, tt)
