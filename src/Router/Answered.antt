-- ===== src/Router/Answered.antt =====
-- What an answered request says: who answered, after what, and how it leaves the breaker.
use llm_gateway_rag.Common.{
  ◌≡◌, inl, inr, refl, ap, ◌∙◌, String, Bool, true, false, Option, none, some, List, [], ◌∷◌, ◌++◌,
  All, All-append, All-mono, arith, or_else, sym,
}
use llm_gateway_rag.Common.Int.{ℤ}
use llm_gateway_rag.Common.Dict.{lookup, lookup-insert_self}
use llm_gateway_rag.Routes.{Deployment, RoutingConfig, compute_cost}
use llm_gateway_rag.Schemas.{ChatRequest, ProviderResponse, Outcome, Attempt, CallResult}
use llm_gateway_rag.Environment.{Environment}
use llm_gateway_rag.Breaker
use llm_gateway_rag.Breaker.{BreakerState, CircuitBreaker}
use llm_gateway_rag.Cluster
use llm_gateway_rag.Cluster.{ClusterBreakers}
use llm_gateway_rag.Router.{Session, breaker_of, record_success_by, prepare, succeeded}
use llm_gateway_rag.Router.Retry.{Routed, skips, succeeds, walk}
use llm_gateway_rag.Router.Retry.Trace.{Explains, IsFailureOf, is_failure}
use llm_gateway_rag.Common.Action.{Action}
use llm_gateway_rag.Router.Retry.Answers.{walk-Well, RoutedWell}
use llm_gateway_rag.Router.Complete.{
  Completion, RoutedResult, call_provider, priced, complete_on, complete, complete-Explains,
}
use mathlib.Core.Path.{subst}
use mathlib.Core.List.{Memᴰ, append_assoc}

abbrev pub is_success : Outcome → Bool
is_success Outcome.success = true
is_success _ = false

abbrev pub NotSuccess : Attempt → Type 0
NotSuccess a = is_success a.outcome ≡ false

failure-NotSuccess : (a : Attempt) → is_failure a.outcome ≡ true → NotSuccess a
failure-NotSuccess a h = ground arith

-- The attempts of an answered request: `dep` is in the chain, and its success comes last, after
-- attempts that are no success.
abbrev pub AnsweredBy : List Deployment → Deployment → List Attempt → Type 0
AnsweredBy chain dep tries =
    (earlier : List Attempt) × (t : ℤ) × (tries ≡ earlier ++ succeeds dep t ∷ [])
    × All NotSuccess earlier
    × Memᴰ dep chain

module _ (e : Environment) {A : Type 0}
    (call : Deployment → Action (Session e) (CallResult A)) where
  Explains-answered :
      (chain : List Deployment) (before : List Attempt) (w : Routed A) (a : A) (dep : Deployment)
      (tries : List Attempt)
      → Explains e call chain before w
      → All NotSuccess before
      → w ≡ Routed.routed a dep tries
      → AnsweredBy chain dep tries
  Explains-answered [] before w a dep tries h ok p = absurd (cc)
  Explains-answered (d ∷ chain) before w a dep tries (inl (refused, skipped)) ok p =
      let (earlier, t, q, all, m) =
        Explains-answered chain (before ++ skips d ∷ []) w a dep tries skipped
          (All-append NotSuccess before (skips d ∷ []) ok (refl, tt)) p in
      (earlier, t, q, all, Memᴰ.tail m)
  Explains-answered (d ∷ chain) before w a dep tries (inr (inl (s, unknown, q))) ok p = absurd (cc)
  Explains-answered (d ∷ chain) before w a dep tries (inr (inr (inl (fs, all, m, n, why, rest)))) ok
        p =
      let (earlier, t, q, all', found) =
        Explains-answered chain (before ++ fs) w a dep tries rest
          (All-append NotSuccess before fs ok
            (All-mono (IsFailureOf e call d) NotSuccess (λ x h. failure-NotSuccess x h.1) fs all))
          p in
      (earlier, t, q, all', Memᴰ.tail found)
  Explains-answered (d ∷ chain) before w a dep tries
        (inr (inr (inr (inl (fs, all, n, (a', t, called, q)))))) ok p =
      let same : d ≡ dep = cc in
      let ends : tries ≡ before ++ (fs ++ succeeds d t ∷ []) = cc in
      let all' =
        All-append NotSuccess before fs ok
          (All-mono (IsFailureOf e call d) NotSuccess (λ x h. failure-NotSuccess x h.1) fs all) in
      (
        before ++ fs,
        t,
        ends
            ∙ sym (append_assoc before fs (succeeds d t ∷ []))
            ∙ ap (λ x. (before ++ fs) ++ succeeds x t ∷ []) same,
        all',
        Memᴰ.head (sym same),
      )
  Explains-answered (d ∷ chain) before w a dep tries
        (inr (inr (inr (inr (fs, all, n, (f, t, is, called, q)))))) ok p =
      absurd (cc)

module _ (e : Environment) where
  -- The breaker of this deployment is closed and has counted no failure.
  abbrev pub IsHealthy : Deployment → Session e → Type 0
  IsHealthy dep s =
      (b : CircuitBreaker) × (lookup dep.name s.0.breakers ≡ some b)
      × (b.state ≡ BreakerState.closed)
      × (b.consecutive_failures ≡ 0)

  record_success_by_resets :
      (c : Option ClusterBreakers) (name : String) (b : CircuitBreaker) (s : e.State)
      → let (b', _) = record_success_by e c name b s in
        (b'.state ≡ BreakerState.closed) × (b'.consecutive_failures ≡ 0)
  unfolding record_success_by Breaker.record_success Cluster.record_success
  record_success_by_resets none name b s = (refl, refl)
  record_success_by_resets (some c) name b s = (refl, refl)

  pub succeeded-IsHealthy :
      (dep : Deployment) (s : Session e) → IsHealthy dep (succeeded e dep.name s).1
  unfolding succeeded
  succeeded-IsHealthy dep (r, s) =
      let (b, _) = record_success_by e r.cluster dep.name (breaker_of r dep.name) s in
      let (shut, zero_failures) =
        record_success_by_resets r.cluster dep.name (breaker_of r dep.name) s in
      (b, lookup-insert_self dep.name b r.breakers, shut, zero_failures)

  priced_inv :
      (w : Routed ProviderResponse) (result : RoutedResult)
      → priced e w ≡ Completion.completed result
      → (w ≡ Routed.routed result.response result.deployment result.attempts)
        × (result.cost_usd ≡ compute_cost e.price_map result.deployment result.response.usage)
  unfolding priced
  priced_inv w result p = ground arith

  -- An answered request was answered by a deployment of the chain of its route. The last attempt is
  -- that deployment's success and no earlier attempt is a success; the cost is the price of the
  -- reported tokens at that deployment.
  pub complete-AnsweredBy :
      (request : ChatRequest) (config : Option RoutingConfig) (s : Session e)
      {chain : List Deployment} {result : RoutedResult}
      → lookup request.model (or_else config s.0.config) ≡ some chain
      → (complete e request config s).0 ≡ Completion.completed result
      → AnsweredBy chain result.deployment result.attempts
        × (result.cost_usd ≡ compute_cost e.price_map result.deployment result.response.usage)
  complete-AnsweredBy request config s {chain} {result} h p =
      let (w, q, trace) = complete-Explains e request config s h in
      let (r, cost) = priced_inv w result (sym q ∙ p) in
      (
        Explains-answered e (call_provider e request) chain [] w result.response result.deployment
            result.attempts trace tt r,
        cost,
      )

  complete_on-IsHealthy :
      (request : ChatRequest) (found : Option (List Deployment)) (s : Session e)
      (result : RoutedResult)
      → (complete_on e request found s).0 ≡ Completion.completed result
      → IsHealthy result.deployment (complete_on e request found s).1
  unfolding complete_on
  complete_on-IsHealthy request none s result p = absurd (cc)
  complete_on-IsHealthy request (some chain) s result p =
      let s' = (prepare e chain s).1 in
      let done = λ (dep : Deployment). succeeded e dep.name in
      let (w, s'') = walk e (call_provider e request) done chain [] s' in
      let well =
        walk-Well e IsHealthy (call_provider e request) done succeeded-IsHealthy chain [] s' in
      subst (λ x. RoutedWell e IsHealthy x s'') (priced_inv w result p).0 well

  -- After an answered request the breaker of the deployment that answered is closed, with no
  -- failure counted, whether the breakers are shared or local.
  pub complete-IsHealthy :
      (request : ChatRequest) (config : Option RoutingConfig) (s : Session e)
      {result : RoutedResult}
      → (complete e request config s).0 ≡ Completion.completed result
      → IsHealthy result.deployment (complete e request config s).1
  unfolding complete
  complete-IsHealthy request config s {result} p =
      complete_on-IsHealthy request (lookup request.model (or_else config s.0.config)) s result p
