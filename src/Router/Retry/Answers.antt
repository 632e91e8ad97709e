-- ===== src/Router/Retry/Answers.antt =====
-- What an answer leaves behind: the walk ends with what was done for the deployment that answered.
use llm_gateway_rag.Common.{ℕ, zero, suc, ◌+◌, inl, inr, List, [], ◌∷◌, ◌++◌, Bool-cases}
use llm_gateway_rag.Common.Action.{Action}
use llm_gateway_rag.Routes.{Deployment}
use llm_gateway_rag.Schemas.{CallResult, Attempt}
use llm_gateway_rag.Environment.{Environment}
use llm_gateway_rag.Breaker.{is_closed}
use llm_gateway_rag.Router.{contains, Session, lift, admit, breaker_state, failed}
use llm_gateway_rag.Router.Retry.{
  Tried, Routed, is_rejection, outcome_of, fails, skips, back_off, retries, walk, after_failure,
  after_call, after_tries, try_deployment,
}
use llm_gateway_rag.Common.Int.{ℤ, ◌-ℤ◌}

module _ (e : Environment) (Good : Deployment → Session e → Type 0) {A : Type 0} where
  open e use {clock}

  abbrev pub TriedWell : Deployment → Tried A → Session e → Type 0
  TriedWell dep (Tried.answered a) s = Good dep s
  TriedWell dep _ s = Unit

  abbrev pub RoutedWell : Routed A → Session e → Type 0
  RoutedWell (Routed.routed a dep tries) s = Good dep s
  RoutedWell _ s = Unit

  module _ (call : Deployment → Action (Session e) (CallResult A))
      (on_answer : Deployment → Action (Session e) (Unit {0}))
      (good : (dep : Deployment) (s : Session e) → Good dep (on_answer dep s).1) where
    after_call-Well :
        (dep : Deployment) (result : CallResult A) (start : ℤ) (attempts : List Attempt)
        (again : List Attempt → Action (Session e) (Tried A × List Attempt)) (s : Session e)
        → ((tries : List Attempt) (s' : Session e)
            → TriedWell dep (again tries s').0.0 (again tries s').1)
        → let ((tried, _), s') = after_call e call on_answer dep result start attempts again s in
          TriedWell dep tried s'
    unfolding after_call after_failure
    after_call-Well dep (CallResult.returned a) start attempts again s ih =
        good dep (lift e clock s).1
    after_call-Well dep (CallResult.failed f) start attempts again s ih =
        let (now, s') = lift e clock s in
        let tries = attempts ++ fails dep (outcome_of f) (now -ℤ start) f ∷ [] in
        let (state, s₃) = breaker_state e dep.name (failed e dep.name s').1 in
        elim (Bool-cases (is_rejection f)) [
          | inl p ↦ rw p tt
          | inr p ↦ elim (Bool-cases (is_closed state)) [
            | inl q ↦ rw p (rw q (ih tries s₃))
            | inr q ↦ rw p (rw q tt)
          ]
        ]

    retries-Well :
        (dep : Deployment) (rounds n : ℕ) (attempts : List Attempt) (s : Session e)
        → let ((tried, _), s') = retries e call on_answer dep rounds n attempts s in
          TriedWell dep tried s'
    unfolding retries
    retries-Well dep zero n attempts s = tt
    retries-Well dep (suc rounds) n attempts s =
        let (start, s') = lift e clock (back_off e n s).1 in
        let (result, s'') = call dep s' in
        after_call-Well dep result start attempts (retries e call on_answer dep rounds (n + 1)) s''
          (λ tries st. retries-Well dep rounds (n + 1) tries st)

    after_tries-Well :
        (dep : Deployment) (tried : Tried A) (after : List Attempt)
        (next : List Attempt → Action (Session e) (Routed A)) (s : Session e)
        → TriedWell dep tried s
        → ((tries : List Attempt) (s' : Session e) → RoutedWell (next tries s').0 (next tries s').1)
        → let (w, s') = after_tries e call on_answer dep tried after next s in RoutedWell w s'
    unfolding after_tries
    after_tries-Well dep (Tried.answered a) after next s h ih = h
    after_tries-Well dep Tried.gave_up after next s h ih = ih after s
    after_tries-Well dep (Tried.rejected f) after next s h ih = tt

    -- After a request that was answered, what the answer does for its deployment still holds.
    pub walk-Well :
        (chain : List Deployment) (before : List Attempt) (s : Session e)
        → let (w, s') = walk e call on_answer chain before s in RoutedWell w s'
    unfolding walk try_deployment
    walk-Well [] before s = tt
    walk-Well (dep ∷ chain) before s =
        let (granted, s') = admit e dep.name s in
        let ((tried, after), s'') =
          retries e call on_answer dep (dep.max_retries + 1) 0 before s' in
        let next =
          after_tries-Well dep tried after (walk e call on_answer chain) s''
            (retries-Well dep (dep.max_retries + 1) 0 before s')
            (λ tries st. walk-Well chain tries st) in
        elim (Bool-cases granted) [
          | inl p ↦ rw p (elim (Bool-cases (contains s'.0.providers dep.provider)) [
            | inl q ↦ rw q next
            | inr q ↦ rw q tt
          ])
          | inr p ↦ rw p (walk-Well chain (before ++ skips dep ∷ []) s')
        ]
