-- ===== src/Router/Complete.antt =====
-- `LLMRouter.complete` of app/gateway/router.py: one answer, from the first deployment that gives it.
use llm_gateway_rag.Common.{
  ℕ, ◌+◌, ◌≤◌, ◌≡◌, inl, inr, refl, String, Option, none, some, List, [], ◌∷◌, ◌++◌, length,
  length-append, arith, or_else,
}
use llm_gateway_rag.Common.Dict.{lookup}
use llm_gateway_rag.Common.Action.{Action, pure, ◌>>=◌, ◌>>◌}
use llm_gateway_rag.Routes.{Deployment, RoutingConfig, compute_cost}
use llm_gateway_rag.Schemas.{ChatRequest, ProviderResponse, Failure, CallResult, Outcome, Attempt}
use llm_gateway_rag.Environment.{Environment}
use llm_gateway_rag.Router.{Session, lift, timeout_of, inject, succeeded, prepare}
use llm_gateway_rag.Router.Retry.{Routed, skips, succeeds, fails, walk}
use llm_gateway_rag.Router.Retry.Trace.{Explains, walk-Explains}

pub record RoutedResult : Type 0 where
  pub response : ProviderResponse
  pub deployment : Deployment
  pub attempts : List Attempt
  pub cost_usd : ℕ  -- in millionths of the price unit

pub data Completion : Type 0 where
  completed : RoutedResult → Completion
  unknown_model : String → Completion
  all_failed : List Attempt → Completion
  client_error : Failure → List Attempt → Completion

module _ (e : Environment) where
  -- the `try` of `_call_with_retries`
  unfoldable pub call_provider :
      ChatRequest → Deployment → Action (Session e) (CallResult ProviderResponse)
  call_provider request dep (r, s) =
      let (fault, (r', s')) = inject e dep.name (r, s) in
      elim fault [
        | some f ↦ (CallResult.failed f, (r', s'))
        | none ↦ lift e (e.complete dep request (timeout_of r dep)) (r', s')
      ]

  unfoldable pub priced : Routed ProviderResponse → Completion
  priced (Routed.routed response dep attempts) = Completion.completed (record {
    response = response;
    deployment = dep;
    attempts = attempts;
    cost_usd = compute_cost e.price_map dep response.usage;
  })
  priced (Routed.unknown_model name) = Completion.unknown_model name
  priced (Routed.all_failed attempts) = Completion.all_failed attempts
  priced (Routed.client_error f attempts) = Completion.client_error f attempts

  unfoldable pub complete_on :
      ChatRequest → Option (List Deployment) → Action (Session e) Completion
  complete_on request none = pure (Completion.unknown_model request.model)
  complete_on request (some chain) = do
    prepare e chain
    w ← walk e (call_provider request) (λ dep. succeeded e dep.name) chain []
    pure (priced w)

  -- `(config or self.config).routes.get(request.model)`
  unfoldable pub complete : ChatRequest → Option RoutingConfig → Action (Session e) Completion
  complete request config (r, s) =
      complete_on request (lookup request.model (or_else config r.config)) (r, s)

abbrev pub attempts_of : Completion → List Attempt
attempts_of (Completion.completed r) = r.attempts
attempts_of (Completion.unknown_model name) = []
attempts_of (Completion.all_failed tries) = tries
attempts_of (Completion.client_error f tries) = tries

-- What a chain may cost: every deployment its retries and one more call.
abbrev pub call_budget : List Deployment → ℕ
call_budget [] = 0
call_budget (dep ∷ chain) = dep.max_retries + 1 + call_budget chain

module _ {A : Type 0} where
  abbrev pub routed_attempts : Routed A → List Attempt
  routed_attempts (Routed.routed a dep tries) = tries
  routed_attempts (Routed.unknown_model name) = []
  routed_attempts (Routed.all_failed tries) = tries
  routed_attempts (Routed.client_error f tries) = tries

module _ (e : Environment) {A : Type 0}
    (call : Deployment → Action (Session e) (CallResult A)) where
  Explains-budget :
      (chain : List Deployment) (before : List Attempt) (w : Routed A)
      → Explains e call chain before w
      → length (routed_attempts w) ≤ length before + call_budget chain
  Explains-budget [] before w h = rw h (omega arith)
  Explains-budget (dep ∷ chain) before w (inl (refused, skipped)) = omega (
    arith,
    Explains-budget chain (before ++ skips dep ∷ []) w skipped,
    length-append before (skips dep ∷ []),
  )
  Explains-budget (dep ∷ chain) before w (inr (inl (s, unknown, p))) = rw p (omega arith)
  Explains-budget (dep ∷ chain) before w (inr (inr (inl (fs, all, m, n, why, rest)))) =
      omega (arith, Explains-budget chain (before ++ fs) w rest, length-append before fs)
  Explains-budget (dep ∷ chain) before w (inr (inr (inr (inl (fs, all, n, (a, t, called, p)))))) =
      rw p (
        omega (
          arith,
          length-append before (fs ++ succeeds dep t ∷ []),
          length-append fs (succeeds dep t ∷ []),
        ))
  Explains-budget (dep ∷ chain) before w
        (inr (inr (inr (inr (fs, all, n, (f, t, is, called, p)))))) =
      rw p (
        omega (
          arith,
          length-append before (fs ++ fails dep Outcome.client_error t f ∷ []),
          length-append fs (fails dep Outcome.client_error t f ∷ []),
        ))

module _ (e : Environment) where
  pub complete-Explains :
      (request : ChatRequest) (config : Option RoutingConfig) (s : Session e)
      {chain : List Deployment}
      → lookup request.model (or_else config s.0.config) ≡ some chain
      → (w : Routed ProviderResponse) × ((complete e request config s).0 ≡ priced e w)
        × Explains e (call_provider e request) chain [] w
  unfolding complete complete_on
  complete-Explains request config s {chain} h =
      let s' = (prepare e chain s).1 in
      let call = call_provider e request in
      let done = λ (dep : Deployment). succeeded e dep.name in
      ((walk e call done chain [] s').0, rw h, walk-Explains e call done chain [] s')

  attempts_of-priced : (w : Routed ProviderResponse) → attempts_of (priced e w) ≡ routed_attempts w
  unfolding priced
  attempts_of-priced (Routed.routed a dep tries) = refl
  attempts_of-priced w = refl

  -- A request makes no more attempts, skipped deployments counted, than the retries of the chain of
  -- its route allow: `max_retries + 1` for every deployment.
  pub complete_budget :
      (request : ChatRequest) (config : Option RoutingConfig) (s : Session e)
      {chain : List Deployment}
      → lookup request.model (or_else config s.0.config) ≡ some chain
      → length (attempts_of (complete e request config s).0) ≤ call_budget chain
  complete_budget request config s {chain} h =
      let (w, p, trace) = complete-Explains request config s h in
      rw (p, attempts_of-priced)
        (omega (arith, Explains-budget e (call_provider e request) chain [] w trace))
