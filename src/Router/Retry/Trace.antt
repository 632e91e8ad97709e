-- ===== src/Router/Retry/Trace.antt =====
-- What the list of attempts says of a request: the walk along the chain, deployment by deployment.
use llm_gateway_rag.Common.{
  ℕ, zero, suc, ◌+◌, ◌<◌, ◌≤◌, ◌≡◌, ◌⊎◌, inl, inr, refl, sym, ◌∙◌, Bool, true, false, some, List,
  [], ◌∷◌, ◌++◌, All, length, arith, min, Bool-cases,
}
use llm_gateway_rag.Common.Int.{ℤ, ◌-ℤ◌}
use llm_gateway_rag.Common.Action.{Action}
use llm_gateway_rag.Routes.{Deployment}
use llm_gateway_rag.Schemas.{Failure, CallResult, Outcome, Attempt}
use llm_gateway_rag.Environment.{Environment}
use llm_gateway_rag.Breaker.{is_closed}
use llm_gateway_rag.Router.{contains, Session, lift, admit, breaker_state, failed, succeeded}
use llm_gateway_rag.Router.Retry.{
  Tried, Routed, is_rejection, outcome_of, succeeds, fails, skips, retries, walk, after_failure,
  back_off, after_call, after_tries, try_deployment,
}
use mathlib.Core.List.{append_assoc, append-nil}

abbrev pub is_failure : Outcome → Bool
is_failure Outcome.error = true
is_failure Outcome.timeout = true
is_failure _ = false

module _ (e : Environment) {A : Type 0}
    (call : Deployment → Action (Session e) (CallResult A)) where
  -- A call of this deployment came to this.
  abbrev pub Called : Deployment → CallResult A → Type 0
  Called dep result = (s : Session e) × ((call dep s).0 ≡ result)

  -- A retryable failure of this deployment, with what a call of it raised.
  abbrev pub IsFailureOf : Deployment → Attempt → Type 0
  IsFailureOf dep a =
      (a.deployment ≡ dep.name)
      × (is_failure a.outcome ≡ true)
      × ((f : Failure) × Called dep (CallResult.failed f) × (a.error ≡ some f))

  -- The breaker of this deployment refused the request.
  abbrev pub Refused : Deployment → Type 0
  Refused dep = (s : Session e) × ((admit e dep.name s).0 ≡ false)

  -- No more tries are left, or the breaker of the deployment was no longer closed.
  abbrev pub Exhausted : Deployment → ℕ → List Attempt → Type 0
  Exhausted dep rounds fs =
      (length fs ≡ rounds) ⊎ ((s : Session e) × (is_closed (breaker_state e dep.name s).0 ≡ false))

  -- How the tries on one deployment end, after the failures `fs`, with at most `rounds` calls.
  abbrev pub TryEnds :
      Deployment → ℕ → List Attempt → List Attempt → Tried A → List Attempt → Type 0
  TryEnds dep rounds before fs (Tried.answered a) after =
      (t : ℤ) × (length fs < rounds)
      × Called dep (CallResult.returned a)
      × (after ≡ before ++ (fs ++ succeeds dep t ∷ []))
  TryEnds dep rounds before fs Tried.gave_up after =
      (length fs ≤ rounds)
      × (min 1 rounds ≤ length fs)
      × Exhausted dep rounds fs
      × (after ≡ before ++ fs)
  TryEnds dep rounds before fs (Tried.rejected f) after =
      (t : ℤ) × (length fs < rounds)
      × (is_rejection f ≡ true)
      × Called dep (CallResult.failed f)
      × (after ≡ before ++ (fs ++ fails dep Outcome.client_error t f ∷ []))

  abbrev pub Tries : Deployment → ℕ → List Attempt → Tried A × List Attempt → Type 0
  Tries dep rounds before (tried, after) =
      (fs : List Attempt) × All (IsFailureOf dep) fs × TryEnds dep rounds before fs tried after

  Exhausted-more :
      (dep : Deployment) (rounds : ℕ) (a : Attempt) (fs : List Attempt)
      → Exhausted dep rounds fs
      → Exhausted dep (suc rounds) (a ∷ fs)
  Exhausted-more dep rounds a fs (inl h) = inl (omega (arith, h))
  Exhausted-more dep rounds a fs (inr h) = inr h

  Tries-more :
      (dep : Deployment) (rounds : ℕ) (before : List Attempt) (a : Attempt)
      (r : Tried A × List Attempt)
      → IsFailureOf dep a
      → Tries dep rounds (before ++ a ∷ []) r
      → Tries dep (suc rounds) before r
  Tries-more dep rounds before a (Tried.answered x, after) h (fs, all, (t, n, called, p)) =
      (a ∷ fs, (h, all), (t, omega arith, called, p ∙ append_assoc before (a ∷ []) _))
  Tries-more dep rounds before a (Tried.gave_up, after) h (fs, all, (n, m, why, p)) = (
    a ∷ fs,
    (h, all),
    (
      omega arith,
      omega arith,
      Exhausted-more dep rounds a fs why,
      p ∙ append_assoc before (a ∷ []) _,
    ),
  )
  Tries-more dep rounds before a (Tried.rejected f, after) h (fs, all, (t, n, is, called, p)) =
      (a ∷ fs, (h, all), (t, omega arith, is, called, p ∙ append_assoc before (a ∷ []) _))

  -- How a request ends, when the walk along `chain` starts with the attempts `before`: a
  -- deployment is skipped, as its breaker refused; or its adapter is not registered; or it fails at least
  -- once and at most `max_retries + 1` times, and is given up as no try is left or its breaker is not closed;
  -- or it answers or rejects after at most `max_retries` failures. Every failure, answer and rejection is
  -- what a call of that deployment came to.
  abbrev pub Explains : List Deployment → List Attempt → Routed A → Type 0
  Explains [] before w = w ≡ Routed.all_failed before
  Explains (dep ∷ chain) before w =
      (Refused dep × Explains chain (before ++ skips dep ∷ []) w)
      ⊎ ((s : Session e) × (contains s.0.providers dep.provider ≡ false)
          × (w ≡ Routed.unknown_model dep.provider))
      ⊎ ((fs : List Attempt) × All (IsFailureOf dep) fs
          × (1 ≤ length fs)
          × (length fs ≤ dep.max_retries + 1)
          × Exhausted dep (dep.max_retries + 1) fs
          × Explains chain (before ++ fs) w)
      ⊎ ((fs : List Attempt) × All (IsFailureOf dep) fs
          × (length fs ≤ dep.max_retries)
          × ((a : A) × (t : ℤ) × Called dep (CallResult.returned a)
              × (w ≡ Routed.routed a dep (before ++ (fs ++ succeeds dep t ∷ [])))))
      ⊎ ((fs : List Attempt) × All (IsFailureOf dep) fs
          × (length fs ≤ dep.max_retries)
          × ((f : Failure) × (t : ℤ) × (is_rejection f ≡ true)
              × Called dep (CallResult.failed f)
              × (w
                  ≡ Routed.client_error f
                      (before ++ (fs ++ fails dep Outcome.client_error t f ∷ [])))))

outcome_of_fails : (f : Failure) → is_failure (outcome_of f) ≡ true
outcome_of_fails f = ground arith

module _ (e : Environment) where
  open e use {State, clock, sleep}

  module _ {A : Type 0} (call : Deployment → Action (Session e) (CallResult A))
      (on_answer : Deployment → Action (Session e) (Unit {0})) where
    after_failure-Tries :
        (dep : Deployment) (f : Failure) (start : ℤ) (rounds : ℕ) (attempts : List Attempt)
        (again : List Attempt → Action (Session e) (Tried A × List Attempt)) (s : Session e)
        → Called e call dep (CallResult.failed f)
        → ((tries : List Attempt) (s' : Session e)
            → Tries e call dep rounds tries (again tries s').0)
        → Tries e call dep
            (suc rounds)
            attempts
            (after_failure e call on_answer dep f start attempts again s).0
    unfolding after_failure
    after_failure-Tries dep f start rounds attempts again s came ih =
        let now = (lift e clock (succeeded e dep.name s).1).0 in
        let (now', s') = lift e clock s in
        let a = fails dep (outcome_of f) (now' -ℤ start) f in
        let s'' = (failed e dep.name s').1 in
        let (state, s₃) = breaker_state e dep.name s'' in
        let more =
          Tries-more e call dep rounds attempts a (again (attempts ++ a ∷ []) s₃).0
            (refl, outcome_of_fails f, (f, came, refl)) (ih (attempts ++ a ∷ []) s₃) in
        elim (Bool-cases (is_rejection f)) [
          | inl p ↦ rw (p, after_failure) ([], tt, (now -ℤ start, omega arith, p, came, refl))
          | inr p ↦ elim (Bool-cases (is_closed state)) [
            | inl q ↦ rw (p, after_failure) (rw q more)
            | inr q ↦
                rw (p, after_failure)
                  (rw q (
                    a ∷ [],
                    ((refl, outcome_of_fails f, (f, came, refl)), tt),
                    (omega arith, omega arith, inr (s'', q), refl),
                  ))
          ]
        ]

    after_call-Tries :
        (dep : Deployment) (result : CallResult A) (start : ℤ) (rounds : ℕ)
        (attempts : List Attempt)
        (again : List Attempt → Action (Session e) (Tried A × List Attempt)) (s : Session e)
        → Called e call dep result
        → ((tries : List Attempt) (s' : Session e)
            → Tries e call dep rounds tries (again tries s').0)
        → Tries e call dep
            (suc rounds)
            attempts
            (after_call e call on_answer dep result start attempts again s).0
    unfolding after_call
    after_call-Tries dep (CallResult.returned a) start rounds attempts again s came ih =
        let (now, s') = lift e clock s in ([], tt, (now -ℤ start, omega arith, came, refl))
    after_call-Tries dep (CallResult.failed f) start rounds attempts again s came ih =
        after_failure-Tries dep f start rounds attempts again s came ih

    retries-Tries :
        (dep : Deployment) (rounds n : ℕ) (attempts : List Attempt) (s : Session e)
        → Tries e call dep rounds attempts (retries e call on_answer dep rounds n attempts s).0
    unfolding retries
    retries-Tries dep zero n attempts s =
        ([], tt, (omega arith, omega arith, inl refl, sym (append-nil attempts)))
    retries-Tries dep (suc rounds) n attempts s =
        let s' = (back_off e n s).1 in
        let (start, s'') = lift e clock s' in
        let (result, s₃) = call dep s'' in
        after_call-Tries dep result start rounds attempts
          (retries e call on_answer dep rounds (n + 1)) s₃ (s'', refl)
          (λ tries st. retries-Tries dep rounds (n + 1) tries st)

    after_tries-Explains :
        (dep : Deployment) (chain : List Deployment) (before after : List Attempt) (tried : Tried A)
        (next : List Attempt → Action (Session e) (Routed A)) (s : Session e)
        → Tries e call dep (dep.max_retries + 1) before (tried, after)
        → ((tries : List Attempt) (s' : Session e) → Explains e call chain tries (next tries s').0)
        → Explains e call
            (dep ∷ chain)
            before
            (after_tries e call on_answer dep tried after next s).0
    unfolding after_tries
    after_tries-Explains dep chain before after (Tried.answered a) next s
          (fs, all, (t, n, called, p)) ih =
        inr (inr (inr (inl (fs, all, omega arith, (a, t, called, rw p)))))
    after_tries-Explains dep chain before after Tried.gave_up next s (fs, all, (n, m, why, p)) ih =
        inr (inr (inl (fs, all, omega (arith, m), n, why, rw (← p) (ih after s))))
    after_tries-Explains dep chain before after (Tried.rejected f) next s
          (fs, all, (t, n, is, called, p)) ih =
        inr (inr (inr (inr (fs, all, omega arith, (f, t, is, called, rw p)))))

    try_deployment-Explains :
        (dep : Deployment) (chain : List Deployment) (before : List Attempt)
        (next : List Attempt → Action (Session e) (Routed A)) (s : Session e)
        → ((tries : List Attempt) (s' : Session e) → Explains e call chain tries (next tries s').0)
        → Explains e call (dep ∷ chain) before (try_deployment e call on_answer dep before next s).0
    unfolding try_deployment
    try_deployment-Explains dep chain before next (r, st) ih =
        let ((tried, after), s') =
          retries e call on_answer dep (dep.max_retries + 1) 0 before (r, st) in
        let tries = retries-Tries dep (dep.max_retries + 1) 0 before (r, st) in
        elim (Bool-cases (contains r.providers dep.provider)) [
          | inl p ↦ rw p (after_tries-Explains dep chain before after tried next s' tries ih)
          | inr p ↦ rw p (inr (inl ((r, st), p, refl)))
        ]

    -- Every request ends as its attempts tell: along the chain, deployment by deployment.
    pub walk-Explains :
        (chain : List Deployment) (before : List Attempt) (s : Session e)
        → Explains e call chain before (walk e call on_answer chain before s).0
    unfolding walk
    walk-Explains [] before s = refl
    walk-Explains (dep ∷ chain) before s =
        let (granted, s') = admit e dep.name s in
        elim (Bool-cases granted) [
          | inl p ↦ rw p (
              try_deployment-Explains dep chain before (walk e call on_answer chain) s'
                (λ tries st. walk-Explains chain tries st))
          | inr p ↦ rw p (inl ((s, p), walk-Explains chain (before ++ skips dep ∷ []) s'))
        ]
