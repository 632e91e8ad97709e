-- ===== src/Rollout.antt =====
-- Canary rollouts of the route table, app/gateway/rollout.py. `_load` gives the cached pair itself,
-- so what `set_weight` and `roll_back` write to the canary's state is written to the cache too.
pub mod Changes
pub mod Verdicts
use llm_gateway_rag.Common.{
  ℕ, ◌+◌, ◌*◌, String, Bool, true, false, ◌&&◌, ◌||◌, not, Option, none, some, List, [], ◌∷◌,
  is_some, or_else, ltb, leb, ◌==◌, str_eq, if◌then◌else◌,
}
use llm_gateway_rag.Common.Int.{ℤ, ◌-ℤ◌, ltb_ℤ}
use llm_gateway_rag.Common.Text.{Text}
use llm_gateway_rag.Common.Action.{Action, pure, ◌>>=◌, ◌>>◌}
use llm_gateway_rag.Routes.{RoutingConfig}

pub data VariantName : Type 0 where
  stable canary : VariantName

pub record Variant : Type 0 where
  pub name : VariantName
  pub version : String

-- the reason of an automatic rollback, with its error rate in errors and requests
pub data Reason : Type 0 where
  error_rate : ℕ → ℕ → Reason
  given : String → Reason

pub record CanaryState : Type 0 where
  pub version : String
  pub weight : ℕ
  pub note : Option String
  pub created_at : String
  pub rolled_back_at : Option String
  pub rollback_reason : Option Reason

-- the property `active`
abbrev pub active : CanaryState → Bool
active c = ltb 0 c.weight && not (is_some c.rolled_back_at)

-- `_Cached`; `none` as the time is minus infinity
pub record Cached : Type 0 where
  pub stable : Option (String × RoutingConfig)
  pub canary : Option (CanaryState × RoutingConfig)
  pub fetched_at : Option ℤ

pub data RolloutCommand : Type 0 where
  count_request count_error forget_stats : String → RolloutCommand
  set_canary : CanaryState → RoutingConfig → RolloutCommand
  set_stable : String → RoutingConfig → String → RolloutCommand
  delete_canary : RolloutCommand

-- What the manager calls: a pipeline answers the reply of its last command, and `none` is an
-- exception; so is that of reading and decoding the two tables. Random numbers are of a unit.
pub record RolloutServices : Type 1 where
  pub State : Type 0
  pub clock : Action State ℤ
  pub random : Action State ℕ
  pub unit : ℕ
  pub execute : List RolloutCommand → Action State (Option ℕ)
  pub read_tables :
      Action State (Option (Option (String × RoutingConfig) × Option (CanaryState × RoutingConfig)))
  pub read_stats : String → Action State (Option (ℕ × ℕ))
  pub now : Action State String
  pub from_text : Text → Option RoutingConfig
  pub fingerprint : RoutingConfig → String

-- `RolloutSettings`, with the error rate in the unit, and the table compiled at start-up
pub record RolloutSettings : Type 0 where
  pub min_requests : ℕ
  pub max_error_rate : ℕ
  pub refresh : ℤ
  pub fallback : String × RoutingConfig

-- A method returns, or lets an exception of Redis or of the parser pass.
pub data Managed (A : Type 0) : Type 0 where
  returned : A → Managed A
  redis_error invalid_config : Managed A

module _ (v : RolloutServices) (settings : RolloutSettings) where
  open v use {
    State, clock, random, unit, execute, read_tables, read_stats, now, from_text, fingerprint,
  }

  abbrev pub Manager : Type 0
  Manager = Cached × State

  abbrev pub outside : {A : Type 0} → Action State A → Action Manager A
  outside m (c, w) = let (a, w') = m w in (a, (c, w'))

  abbrev pub is_fresh : Cached → ℤ → Bool
  is_fresh c t = elim c.fetched_at [ none ↦ false | some f ↦ ltb_ℤ (t -ℤ f) settings.refresh ]

  abbrev pub fetched :
      ℤ → Option (Option (String × RoutingConfig) × Option (CanaryState × RoutingConfig)) → Cached
  fetched t none = record { stable = none; canary = none; fetched_at = some t }
  fetched t (some (s, c)) = record { stable = s; canary = c; fetched_at = some t }

  abbrev pub put : Cached → Action Manager Cached
  put c' (c, w) = (c', (c', w))

  abbrev pub cached : Action Manager Cached
  cached (c, w) = (c, (c, w))

  -- `_load`
  unfoldable pub load : Action Manager Cached
  load = do
    t ← outside clock
    c ← cached
    if is_fresh c t then pure c else (do tables ← outside read_tables; put (fetched t tables))

  -- `canary`
  unfoldable pub current_canary : Action Manager (Option (CanaryState × RoutingConfig))
  current_canary = do c ← load; pure c.canary

  abbrev pub chosen_stable : Cached → RoutingConfig × Variant
  chosen_stable c =
      let (version, config) = or_else c.stable settings.fallback in
      (config, record { name = VariantName.stable; version = version })

  unfoldable pub choose :
      Cached → Option (CanaryState × RoutingConfig) → Action Manager (RoutingConfig × Variant)
  choose c none = pure (chosen_stable c)
  choose c (some (state, config)) =
      if active state
      then (do
        r ← outside random
        if ltb (r * 100) (state.weight * unit)
            then pure (config, record { name = VariantName.canary; version = state.version })
            else pure (chosen_stable c))
      else pure (chosen_stable c)

  unfoldable pub select : Action Manager (RoutingConfig × Variant)
  select = do c ← load; choose c c.canary
