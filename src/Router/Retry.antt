-- ===== src/Router/Retry.antt =====
-- The retry loop and the walk along a fallback chain, which `complete` and `open_stream` of
-- app/gateway/router.py share but for the call that they make and what they do on an answer.
pub mod Trace
pub mod Answers
use llm_gateway_rag.Common.{
  ℕ, zero, suc, ◌+◌, ◌*◌, ◌^◌, String, Bool, true, false, none, some, List, [], ◌∷◌, ◌++◌,
  if◌then◌else◌,
}
use llm_gateway_rag.Common.Int.{ℤ, pos, ◌-ℤ◌}
use llm_gateway_rag.Common.Action.{Action, pure, ◌>>=◌, ◌>>◌}
use llm_gateway_rag.Routes.{Deployment}
use llm_gateway_rag.Schemas.{Failure, CallResult, Outcome, Attempt}
use llm_gateway_rag.Environment.{Environment}
use llm_gateway_rag.Breaker.{is_closed}
use llm_gateway_rag.Router.{contains, Session, lift, admit, breaker_state, failed, succeeded}

-- 200 ms, `RETRY_BASE_DELAY_SECONDS`
abbrev pub retry_base_delay : ℕ
retry_base_delay = 200

-- `not e.retryable`
abbrev pub is_rejection : Failure → Bool
is_rejection (Failure.provider_error false _) = true
is_rejection _ = false

abbrev pub outcome_of : Failure → Outcome
outcome_of Failure.timeout = Outcome.timeout
outcome_of _ = Outcome.error

abbrev pub succeeds : Deployment → ℤ → Attempt
succeeds dep t = record {
  deployment = dep.name;
  outcome = Outcome.success;
  latency = t;
  error = none;
}

abbrev pub fails : Deployment → Outcome → ℤ → Failure → Attempt
fails dep o t f = record { deployment = dep.name; outcome = o; latency = t; error = some f }

abbrev pub skips : Deployment → Attempt
skips dep = record {
  deployment = dep.name;
  outcome = Outcome.skipped_circuit_open;
  latency = pos 0;
  error = none;
}

-- How the retries on one deployment end: `rejected` is `ClientRequestError`.
pub data Tried (A : Type 0) : Type 0 where
  answered : A → Tried A
  gave_up : Tried A
  rejected : Failure → Tried A

-- How a request ends: the last three are the exceptions.
pub data Routed (A : Type 0) : Type 0 where
  routed : A → Deployment → List Attempt → Routed A
  unknown_model : String → Routed A
  all_failed : List Attempt → Routed A
  client_error : Failure → List Attempt → Routed A

module _ (e : Environment) where
  open e use {clock, sleep}

  -- `if retry > 0: await self._sleep(RETRY_BASE_DELAY_SECONDS * 2 ** (retry - 1))`
  unfoldable pub back_off : ℕ → Action (Session e) (Unit {0})
  back_off zero = pure tt
  back_off (suc n) = lift e (sleep (pos (retry_base_delay * 2 ^ n)))

  module _ {A : Type 0} (call : Deployment → Action (Session e) (CallResult A))
      (on_answer : Deployment → Action (Session e) (Unit {0})) where
    unfoldable pub after_failure :
        Deployment
        → Failure
        → ℤ
        → List Attempt
        → (List Attempt → Action (Session e) (Tried A × List Attempt))
        → Action (Session e) (Tried A × List Attempt)
    after_failure dep f start attempts again =
        if is_rejection f
        then (do
          succeeded e dep.name
          now ← lift e clock
          pure (Tried.rejected f, attempts ++ fails dep Outcome.client_error (now -ℤ start) f ∷ []))
        else (do
          now ← lift e clock
          let attempts' = attempts ++ fails dep (outcome_of f) (now -ℤ start) f ∷ []
          failed e dep.name
          state ← breaker_state e dep.name
          if is_closed state then again attempts' else pure (Tried.gave_up, attempts'))

    unfoldable pub after_call :
        Deployment
        → CallResult A
        → ℤ
        → List Attempt
        → (List Attempt → Action (Session e) (Tried A × List Attempt))
        → Action (Session e) (Tried A × List Attempt)
    after_call dep (CallResult.returned a) start attempts again = do
      now ← lift e clock
      on_answer dep
      pure (Tried.answered a, attempts ++ succeeds dep (now -ℤ start) ∷ [])
    after_call dep (CallResult.failed f) start attempts again =
        after_failure dep f start attempts again

    -- `for retry in range(dep.max_retries + 1)`, with the rounds left and the round
    unfoldable pub retries :
        Deployment → ℕ → ℕ → List Attempt → Action (Session e) (Tried A × List Attempt)
    retries dep zero retry attempts = pure (Tried.gave_up, attempts)
    retries dep (suc left) retry attempts = do
      back_off retry
      start ← lift e clock
      result ← call dep
      after_call dep result start attempts (retries dep left (retry + 1))

    unfoldable pub after_tries :
        Deployment
        → Tried A
        → List Attempt
        → (List Attempt → Action (Session e) (Routed A))
        → Action (Session e) (Routed A)
    after_tries dep (Tried.answered a) attempts next = pure (Routed.routed a dep attempts)
    after_tries dep Tried.gave_up attempts next = next attempts
    after_tries dep (Tried.rejected f) attempts next = pure (Routed.client_error f attempts)

    unfoldable pub try_deployment :
        Deployment
        → List Attempt
        → (List Attempt → Action (Session e) (Routed A))
        → Action (Session e) (Routed A)
    try_deployment dep attempts next (r, s) =
        if contains r.providers dep.provider
        then (do
          (tried, attempts') ← retries dep (dep.max_retries + 1) 0 attempts
          after_tries dep tried attempts' next)
            (r, s)
        else (Routed.unknown_model dep.provider, (r, s))

    -- `for position, dep in enumerate(chain)`
    unfoldable pub walk : List Deployment → List Attempt → Action (Session e) (Routed A)
    walk [] attempts = pure (Routed.all_failed attempts)
    walk (dep ∷ chain) attempts = do
      granted ← admit e dep.name
      if granted
          then try_deployment dep attempts (walk chain)
          else walk chain (attempts ++ skips dep ∷ [])
