-- ===== src/Rollout/Verdicts.antt =====
-- What the canary of a rollout may serve, and when it is pulled.
use llm_gateway_rag.Common.{
  ◌*◌, ◌≡◌, ◌⊎◌, inl, inr, refl, Bool, true, false, Option, none, some, [], ◌∷◌, ltb, Bool-cases,
}
use llm_gateway_rag.Rollout.{
  VariantName, Variant, CanaryState, Cached, RolloutServices, RolloutSettings, Manager,
  RolloutCommand, active, load, choose, select, chosen_stable,
}
use llm_gateway_rag.Routes.{RoutingConfig}

module _ (v : RolloutServices) (settings : RolloutSettings) where
  open v use {State, clock, random, unit, read_stats, execute}

  -- What a request may be served: the stable table, or else the canary that the manager has, while
  -- it is active.
  abbrev pub Serves : Cached → RoutingConfig × Variant → Type 0
  Serves c r =
      (r ≡ chosen_stable v settings c)
      ⊎ ((state : CanaryState) × (config : RoutingConfig) × (c.canary ≡ some (state, config))
          × (active state ≡ true)
          × (r ≡ (config, record { name = VariantName.canary; version = state.version })))

  choose-Serves :
      (c : Cached) (o : Option (CanaryState × RoutingConfig)) (m : Manager v settings)
      → c.canary ≡ o
      → Serves c (choose v settings c o m).0
  unfolding choose
  choose-Serves c none m h = inl refl
  choose-Serves c (some (state, config)) (m, w) h = elim (Bool-cases (active state)) [
    | inl e ↦ elim (Bool-cases (ltb ((random w).0 * 100) (state.weight * unit))) [
      | inl f ↦ rw (e, f) (inr (state, config, h, e, refl))
      | inr f ↦ rw (e, f) (inl refl)
    ]
    | inr e ↦ rw e (inl refl)
  ]

  -- A request is served the stable table, or the start-up table if there is none, or else the
  -- canary, and that only while the canary is active: its weight is not 0 and it has not been
  -- rolled back.
  pub select-Serves :
      (m : Manager v settings) → Serves (load v settings m).0 (select v settings m).0
  unfolding select
  select-Serves m = choose-Serves (load v settings m).0 _ _ refl

  -- The manager has no canary, or one that is not active, and the last that it wrote to Redis is this canary.
  abbrev pub Pulled : Option (CanaryState × RoutingConfig) → State → Type 0
  Pulled none w = Unit
  Pulled (some (state, config)) w =
      (active state ≡ false)
      × (state.weight ≡ 0)
      × ((before : State) × (w ≡ (execute (RolloutCommand.set_canary state config ∷ []) before).1))

  -- The canary after a verdict: pulled if it was condemned, and as it was if not.
  abbrev pub Judged :
      Bool
      → Option (CanaryState × RoutingConfig)
      → Option (CanaryState × RoutingConfig)
      → State
      → Type 0
  Judged true before after w = Pulled after w
  Judged false before after w = after ≡ before
