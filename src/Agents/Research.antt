-- ===== src/Agents/Research.antt =====
-- The research graph and its runs, `build_graph` and `research` of app/agents/service.py.
pub mod Moves
pub mod Settles
use llm_gateway_rag.Common.{ℕ, String, Bool, none, List, [], ◌∷◌, length, ◌==◌, if◌then◌else◌}
use llm_gateway_rag.Common.Text.{Text}
use llm_gateway_rag.Common.Action.{Action, pure, ◌>>=◌}
use llm_gateway_rag.Agents.{Graph, Step, RunEnd, run, end}
use llm_gateway_rag.Agents.State.{Services, ResearchState, Note, Fault}
use llm_gateway_rag.Agents.Nodes.{Research, plan, retrieve, draft, critique, revise}

-- How `research` ends: a response, with the outcome that the metrics are told, or an exception.
pub data RunOutcome : Type 0 where
  answered no_context budget_exceeded : RunOutcome
  failed : Fault → RunOutcome
  graph_error key_error : RunOutcome

pub record ResearchRequest : Type 0 where
  pub question : Text
  pub model : String
  pub top_k : ℕ
  pub max_searches : ℕ
  pub max_revisions : ℕ
  pub use_cache : Bool

module _ (v : Services) (no_context_answer : Text) where
  open v use {State, Principal}

  -- `build_graph`
  abbrev pub build_graph : ℕ → Graph (Research v no_context_answer × State) Note Fault
  build_graph max_steps = record {
    nodes =
        ("plan", plan v no_context_answer)
        ∷ ("retrieve", retrieve v no_context_answer)
        ∷ ("draft", draft v no_context_answer)
        ∷ ("critique", critique v no_context_answer)
        ∷ ("revise", revise v no_context_answer)
        ∷ [];
    edges =
        ("plan", "retrieve" ∷ [])
        ∷ ("retrieve", "draft" ∷ end ∷ [])
        ∷ ("draft", "critique" ∷ [])
        ∷ ("critique", "revise" ∷ end ∷ [])
        ∷ ("revise", "critique" ∷ [])
        ∷ [];
    entry = "plan";
    max_steps = max_steps;
  }

  abbrev pub begin_research : Principal → ResearchRequest → ResearchState Principal
  begin_research principal request = record {
    question = request.question;
    principal = principal;
    model = request.model;
    top_k = request.top_k;
    max_searches = request.max_searches;
    max_revisions = request.max_revisions;
    use_cache = request.use_cache;
    searches = [];
    passages = [];
    draft = [];
    critique = none;
    issues = [];
    revisions = 0;
    llm_calls = 0;
    prompt_tokens = 0;
    completion_tokens = 0;
    cost_usd = 0;
  }

  abbrev pub outcome_of : RunEnd Fault → ResearchState Principal → RunOutcome
  outcome_of RunEnd.finished s =
      if length s.passages == 0 then RunOutcome.no_context else RunOutcome.answered
  outcome_of RunEnd.budget_exceeded s = RunOutcome.budget_exceeded
  outcome_of (RunEnd.raised f) s = RunOutcome.failed f
  outcome_of (RunEnd.bad_move a b) s = RunOutcome.graph_error
  outcome_of (RunEnd.missing_node a) s = RunOutcome.key_error

  -- `research`: the outcome, the state that the response is made of and the steps
  unfoldable pub research :
      ℕ
      → Principal
      → ResearchRequest
      → State
      → (RunOutcome × ResearchState Principal × List (Step Note)) × State
  research max_steps principal request w =
      let ((e, steps), (s, w')) =
        run (build_graph max_steps) (begin_research principal request, w) in
      ((outcome_of e s, s, steps), w')
