-- ===== src/Tests/Routing.antt =====
-- A request that fails over from the first deployment to the second.
use llm_gateway_rag.Common.{false, none, some, [], ◌∷◌, ◌≡◌, refl}
use llm_gateway_rag.Common.Int.{pos, ◌-ℤ◌}
use llm_gateway_rag.Common.Dict.{lookup, insert}
use llm_gateway_rag.Breaker
use llm_gateway_rag.Breaker.{BreakerState, CircuitBreaker}
use llm_gateway_rag.Routes.{compute_cost}
use llm_gateway_rag.Schemas.{CallResult, Failure, Outcome}
use llm_gateway_rag.Router.{
  Router, Session, admit, breaker_state, failed, succeeded, prepare, inject,
}
use llm_gateway_rag.Router.Retry.{
  succeeds, fails, back_off, after_failure, after_call, after_tries, try_deployment, retries, walk,
}
use llm_gateway_rag.Router.Complete.{
  Completion, RoutedResult, call_provider, priced, complete_on, complete,
}
use llm_gateway_rag.Router.Answered.{AnsweredBy, complete-AnsweredBy}
use llm_gateway_rag.Tests.Bench.{bench, world, primary, backup, question, hello}
use llm_gateway_rag.Tests.Tables.{table}

abbrev breaker : CircuitBreaker
breaker = record {
  failure_threshold = 3;
  cooldown = pos 30000;
  state = BreakerState.closed;
  consecutive_failures = 0;
  opened_at = pos 0;
  probe_in_flight = false;
}

abbrev pub router : Router
router = record {
  config = table;
  providers = "litellm" ∷ [];
  default_timeout = pos 30000;
  fresh = breaker;
  breakers = [];
  cluster = none;
  faults = none;
}

-- the first deployment times out twice, the second answers
abbrev pub session : Session bench
session = (
  router,
  record world {
    answers =
        CallResult.failed Failure.timeout
        ∷ CallResult.failed Failure.timeout
        ∷ CallResult.returned hello
        ∷ [];
  },
)

pub default_chain : lookup "default" table ≡ some (primary ∷ backup ∷ [])
unfolding lookup
default_chain = refl

abbrev served : RoutedResult
served = record {
  response = hello;
  deployment = backup;
  attempts =
      fails primary Outcome.timeout (pos 1) Failure.timeout
      ∷ fails primary Outcome.timeout (pos 1) Failure.timeout
      ∷ succeeds backup (pos 1)
      ∷ [];
  cost_usd = 80;
}

-- two retries with a back-off, then the fallback
falls_back : (complete bench question none session).0 ≡ Completion.completed served
unfolding complete complete_on walk try_deployment retries back_off after_call after_failure
    after_tries priced call_provider prepare inject admit breaker_state failed succeeded lookup
    insert compute_cost Breaker.allow_request Breaker.read_state Breaker.record_failure
    Breaker.record_success ◌-ℤ◌
falls_back = refl

complete-AnsweredBy_example :
    AnsweredBy (primary ∷ backup ∷ []) backup served.attempts
    × (served.cost_usd ≡ compute_cost bench.price_map backup hello.usage)
complete-AnsweredBy_example =
    complete-AnsweredBy bench question none session default_chain falls_back
