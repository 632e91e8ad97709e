-- ===== src/Rollout/Changes.antt =====
-- What changes a rollout: the writes to Redis, the outcomes of requests and the rollback, of
-- app/gateway/rollout.py.
use llm_gateway_rag.Common.{
  ℕ, ◌*◌, String, Bool, true, false, ◌&&◌, ◌||◌, not, Option, none, some, List, [], ◌∷◌, is_some,
  or_else, ltb, ◌==◌, str_eq, if◌then◌else◌,
}
use llm_gateway_rag.Common.Text.{Text}
use llm_gateway_rag.Common.Action.{Action, pure, ◌>>=◌, ◌>>◌}
use llm_gateway_rag.Routes.{RoutingConfig}
use llm_gateway_rag.Rollout.{
  VariantName, Variant, Reason, CanaryState, active, Cached, RolloutCommand, RolloutServices,
  RolloutSettings, Managed, Manager, outside, current_canary,
}

module _ (v : RolloutServices) (settings : RolloutSettings) where
  open v use {State, unit, execute, read_stats, now, from_text, fingerprint}

  -- `_invalidate`
  abbrev pub invalidate : Cached → Cached
  invalidate c = record c { fetched_at = none }

  unfoldable pub written : {A : Type 0} → A → Option ℕ → Action (Manager v settings) (Managed A)
  written a none (c, w) = (Managed.redis_error, (c, w))
  written a (some n) (c, w) = (Managed.returned a, (invalidate c, w))

  -- `_write_canary`, after the change of the cached state
  unfoldable pub write_canary :
      CanaryState → RoutingConfig → Action (Manager v settings) (Managed (Option CanaryState))
  unfolding written
  write_canary state config = do
    r ← outside v settings (execute (RolloutCommand.set_canary state config ∷ []))
    written (some state) r

  abbrev pub set_cached : CanaryState → RoutingConfig → Action (Manager v settings) (Unit {0})
  set_cached state config (c, w) = (tt, (record c { canary = some (state, config) }, w))

  unfoldable pub set_weight_of :
      ℕ
      → Option (CanaryState × RoutingConfig)
      → Action (Manager v settings) (Managed (Option CanaryState))
  set_weight_of weight none = pure (Managed.returned none)
  set_weight_of weight (some (state, config)) = do
    let state' = record state {
      weight = weight;
      rolled_back_at = if weight == 0 then state.rolled_back_at else none;
    }
    set_cached state' config
    write_canary state' config

  unfoldable pub set_weight : ℕ → Action (Manager v settings) (Managed (Option CanaryState))
  set_weight weight = do c ← current_canary v settings; set_weight_of weight c

  unfoldable pub roll_back_of :
      Reason
      → Option (CanaryState × RoutingConfig)
      → Action (Manager v settings) (Managed (Option CanaryState))
  roll_back_of reason none = pure (Managed.returned none)
  roll_back_of reason (some (state, config)) = do
    t ← outside v settings now
    let state' = record state { weight = 0; rolled_back_at = some t; rollback_reason = some reason }
    set_cached state' config
    write_canary state' config

  unfoldable pub roll_back : Reason → Action (Manager v settings) (Managed (Option CanaryState))
  roll_back reason = do c ← current_canary v settings; roll_back_of reason c

  -- `errors / requests > max_error_rate`, over enough requests
  abbrev pub is_condemned : ℕ → ℕ → Bool
  is_condemned requests errors =
      not (ltb requests settings.min_requests)
      && ltb (settings.max_error_rate * requests) (errors * unit)

  abbrev pub condemns : Option (ℕ × ℕ) → Bool
  condemns none = false
  condemns (some (requests, errors)) = is_condemned requests errors

  -- `_maybe_roll_back` once the counts were read
  unfoldable pub after_stats :
      Option (ℕ × ℕ) → Action (Manager v settings) (Managed (Option CanaryState))
  after_stats none = pure Managed.redis_error
  after_stats (some (requests, errors)) =
      if is_condemned requests errors
      then roll_back (Reason.error_rate errors requests)
      else pure (Managed.returned none)

  unfoldable pub judge_version :
      String
      → Option (CanaryState × RoutingConfig)
      → Action (Manager v settings) (Managed (Option CanaryState))
  judge_version version none = pure (Managed.returned none)
  judge_version version (some (state, config)) =
      if not (str_eq state.version version) || not (active state)
      then pure (Managed.returned none)
      else (do stats ← outside v settings (read_stats version); after_stats stats)

  -- `_maybe_roll_back`
  unfoldable pub maybe_roll_back :
      String → Action (Manager v settings) (Managed (Option CanaryState))
  maybe_roll_back version = do c ← current_canary v settings; judge_version version c

  abbrev pub is_canary : VariantName → Bool
  is_canary VariantName.canary = true
  is_canary VariantName.stable = false

  abbrev pub outcome_commands : Variant → Bool → List RolloutCommand
  outcome_commands variant ok =
      RolloutCommand.count_request variant.version
      ∷ (if ok then [] else RolloutCommand.count_error variant.version ∷ [])

  unfoldable pub record_outcome :
      Variant → Bool → Action (Manager v settings) (Managed (Option CanaryState))
  record_outcome variant ok = do
    r ← outside v settings (execute (outcome_commands variant ok))
    if is_some r && is_canary variant.name && not ok
        then maybe_roll_back variant.version
        else pure (Managed.returned none)

  unfoldable pub publish_config :
      Option RoutingConfig
      → ℕ
      → Option String
      → Action (Manager v settings) (Managed (Option CanaryState))
  publish_config none weight remark = pure Managed.invalid_config
  publish_config (some config) weight remark = do
    t ← outside v settings now
    let state : CanaryState = record {
      version = fingerprint config;
      weight = weight;
      note = remark;
      created_at = t;
      rolled_back_at = none;
      rollback_reason = none;
    }
    r ← write_canary state config
    elim r [
      | Managed.returned s ↦ (do
        n ← outside v settings (execute (RolloutCommand.forget_stats state.version ∷ []))
        pure (if is_some n then Managed.returned s else Managed.redis_error))
      | Managed.redis_error ↦ pure Managed.redis_error
      | Managed.invalid_config ↦ pure Managed.invalid_config
    ]

  unfoldable pub publish :
      Text → ℕ → Option String → Action (Manager v settings) (Managed (Option CanaryState))
  publish config_text weight remark = publish_config (from_text config_text) weight remark

  unfoldable pub promote_of :
      Option (CanaryState × RoutingConfig)
      → Action (Manager v settings) (Managed (Option (String × RoutingConfig)))
  promote_of none = pure (Managed.returned none)
  promote_of (some (state, config)) = do
    t ← outside v settings now
    a ← outside v settings (execute (RolloutCommand.set_stable state.version config t ∷ []))
    if is_some a
        then (do
          b ← outside v settings (execute (RolloutCommand.delete_canary ∷ []))
          written (some (state.version, config)) b)
        else pure Managed.redis_error

  unfoldable pub promote : Action (Manager v settings) (Managed (Option (String × RoutingConfig)))
  promote = do c ← current_canary v settings; promote_of c

  unfoldable pub discard : Action (Manager v settings) (Managed Bool)
  discard = do
    r ← outside v settings (execute (RolloutCommand.delete_canary ∷ []))
    written (not (or_else r 0 == 0)) r
