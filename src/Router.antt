-- ===== src/Router.antt =====
-- The router, app/gateway/router.py: its state and what it does with one deployment's breaker. A
-- breaker object is the entry of its deployment in `breakers`; log lines and metrics are left out.
-- Requests are taken one at a time: what other requests do to the breakers meanwhile is not modelled.
pub mod Retry
pub mod Complete
pub mod Answered
use llm_gateway_rag.Common.{
  ℕ, zero, suc, String, Bool, true, false, Option, none, some, List, [], ◌∷◌, map, ◌||◌, str_eq,
  or_else, if◌then◌else◌, ◌&&◌,
}
use llm_gateway_rag.Common.Int.{ℤ, pos, leb_ℤ}
use llm_gateway_rag.Common.Dict.{Dict, lookup, insert}
use llm_gateway_rag.Common.Action.{Action, pure, ◌>>=◌, ◌>>◌}
use llm_gateway_rag.Routes.{Deployment, RoutingConfig}
use llm_gateway_rag.Schemas.{Failure}
use llm_gateway_rag.Environment.{Environment}
use llm_gateway_rag.Breaker
use llm_gateway_rag.Breaker.{BreakerState, CircuitBreaker, read_state, allow_request}
use llm_gateway_rag.Cluster
use llm_gateway_rag.Cluster.{ClusterBreakers}
use llm_gateway_rag.Faults.{FaultInjector, maybe_fail}

pub record Router : Type 0 where
  pub config : RoutingConfig
  pub providers : List String  -- the keys of `_providers`
  pub default_timeout : ℤ
  pub fresh : CircuitBreaker  -- what `breaker_factory()` makes
  pub breakers : Dict CircuitBreaker
  pub cluster : Option ClusterBreakers
  pub faults : Option FaultInjector

abbrev pub contains : List String → String → Bool
contains [] p = false
contains (q ∷ ps) p = str_eq q p || contains ps p

-- `self._breaker(name)` before it is stored
abbrev pub breaker_of : Router → String → CircuitBreaker
breaker_of r name = or_else (lookup name r.breakers) r.fresh

-- a write to the breaker object of `name`
abbrev pub put_breaker : Router → String → CircuitBreaker → Router
put_breaker r name b = record r { breakers = insert name b r.breakers }

-- `dep.timeout_seconds or self._default_timeout`
abbrev pub timeout_of : Router → Deployment → ℤ
timeout_of r dep = elim dep.timeout [
  | none ↦ r.default_timeout
  | some t ↦ if leb_ℤ t (pos 0) && leb_ℤ (pos 0) t then r.default_timeout else t
]

module _ (e : Environment) where
  open e use {State, clock}

  abbrev pub Session : Type 0
  Session = Router × State

  -- an effect outside, which leaves the router as it is
  abbrev pub lift : {A : Type 0} → Action State A → Action Session A
  lift m (r, s) = ((m s).0, (r, (m s).1))

  -- `_breaker`
  unfoldable pub ensure_breaker : String → Action Session CircuitBreaker
  ensure_breaker name (r, s) = (breaker_of r name, (put_breaker r name (breaker_of r name), s))

  -- `self._breaker(dep.name).allow_request()`
  unfoldable pub admit : String → Action Session Bool
  admit name (r, s) =
      let (now, s') = clock s in
      let (b, granted) = allow_request (breaker_of r name) now in
      (granted, (put_breaker r name b, s'))

  -- the property `breaker.state`
  unfoldable pub breaker_state : String → Action Session BreakerState
  breaker_state name (r, s) =
      let (now, s') = clock s in
      let b = read_state (breaker_of r name) now in (b.state, (put_breaker r name b, s'))

  record_failure_by :
      Option ClusterBreakers → String → CircuitBreaker → Action State (CircuitBreaker × Bool)
  record_failure_by none name b = do
    now ← clock
    later ← clock
    pure (Breaker.record_failure b now later)
  record_failure_by (some c) name b = Cluster.record_failure e c name b

  record_success_by : Option ClusterBreakers → String → CircuitBreaker → Action State CircuitBreaker
  record_success_by none name b = pure (Breaker.record_success b)
  record_success_by (some c) name b = Cluster.record_success e c name b

  -- `_failed`
  unfoldable pub failed : String → Action Session Bool
  unfolding record_failure_by
  failed name (r, s) =
      let ((b, opened), s') = record_failure_by r.cluster name (breaker_of r name) s in
      (opened, (put_breaker r name b, s'))

  -- `_succeeded`
  unfoldable pub succeeded : String → Action Session (Unit {0})
  unfolding record_success_by
  succeeded name (r, s) =
      let (b, s') = record_success_by r.cluster name (breaker_of r name) s in
      (tt, (put_breaker r name b, s'))

  ensure_all : List Deployment → Router → Router
  ensure_all [] r = r
  ensure_all (dep ∷ chain) r = ensure_all chain (put_breaker r dep.name (breaker_of r dep.name))

  sync_with : Option ClusterBreakers → List Deployment → Action Session (Unit {0})
  unfolding ensure_all
  sync_with none chain (r, s) = (tt, (r, s))
  sync_with (some c) chain (r, s) =
      let r' = ensure_all chain r in
      let ((c', bs), s') = Cluster.sync e c r'.breakers (map (λ dep. dep.name) chain) s in
      (tt, (record r' { cluster = some c'; breakers = bs }, s'))

  -- `_prepare`
  unfoldable pub prepare : List Deployment → Action Session (Unit {0})
  unfolding sync_with
  prepare chain (r, s) = sync_with r.cluster chain (r, s)

  inject_by : Option FaultInjector → String → Action Session (Option Failure)
  inject_by none name (r, s) = (none, (r, s))
  inject_by (some f) name (r, s) =
      let ((f', failure), s') = maybe_fail e name f s in
      (failure, (record r { faults = some f' }, s'))

  -- `if self.faults is not None: await self.faults.maybe_fail(dep.name)`
  unfoldable pub inject : String → Action Session (Option Failure)
  unfolding inject_by
  inject name (r, s) = inject_by r.faults name (r, s)
