-- ===== src/Faults.antt =====
-- Runtime fault injection, app/gateway/faults.py. Rates and random numbers are naturals in one
-- unit, so `random() < rate` is a comparison of naturals.
use llm_gateway_rag.Common.{
  ℕ, String, Bool, true, false, Option, none, some, List, [], ◌∷◌, ltb, or_else, if◌then◌else◌,
}
use llm_gateway_rag.Common.Int.{ℤ, ◌-ℤ◌, leb_ℤ}
use llm_gateway_rag.Common.Dict.{Dict, lookup}
use llm_gateway_rag.Common.Action.{Action, pure, ◌>>=◌}
use llm_gateway_rag.Schemas.{Failure}
use llm_gateway_rag.Environment.{Environment, Command, Reply}

pub record FaultInjector : Type 0 where
  pub refresh : ℤ
  pub rates : Dict ℕ
  pub fetched_at : Option ℤ  -- `none` is `float("-inf")`

-- `now - self._fetched_at >= self._refresh`
abbrev pub is_stale : FaultInjector → ℤ → Bool
is_stale f now = elim f.fetched_at [ none ↦ true | some t ↦ leb_ℤ f.refresh (now -ℤ t) ]

-- the table that was read, or no faults after an exception
abbrev pub table : Option (List Reply) → Dict ℕ
table (some (Reply.hash d ∷ _)) = d
table _ = []

module _ (e : Environment) where
  open e use {State, clock, random, execute}

  -- `rates()`, which leaves the table in the object
  unfoldable pub refresh_rates : FaultInjector → Action State FaultInjector
  refresh_rates f = do
    now ← clock
    if is_stale f now
        then (do
          r ← execute (Command.hgetall ∷ [])
          pure (record f { rates = table r; fetched_at = some now }))
        else pure f

  draw : String → ℕ → FaultInjector → Action State (FaultInjector × Option Failure)
  draw deployment rate f =
      if ltb 0 rate
      then (do
        x ← random
        pure (f, if ltb x rate then some (Failure.provider_error true deployment) else none))
      else pure (f, none)

  -- `maybe_fail`: the failure that it raises, if it does
  unfoldable pub maybe_fail : String → FaultInjector → Action State (FaultInjector × Option Failure)
  unfolding refresh_rates draw
  maybe_fail deployment f = do
    f' ← refresh_rates f
    draw deployment (or_else (lookup deployment f'.rates) 0) f'

  -- `set` and `clear` let an exception of Redis through, and then change nothing here
  unfoldable pub set_rate : String → ℕ → FaultInjector → Action State (FaultInjector × Bool)
  set_rate deployment rate f = do
    r ← execute (Command.hset deployment rate ∷ [])
    pure (elim r [ none ↦ (f, false) | some _ ↦ (record f { fetched_at = none }, true) ])

  unfoldable pub clear_rate : String → FaultInjector → Action State (FaultInjector × Option Reply)
  clear_rate deployment f = do
    r ← execute (Command.hdel deployment ∷ [])
    pure (elim r [
      | none ↦ (f, none)
      | some [] ↦ (record f { fetched_at = none }, none)
      | some (n ∷ _) ↦ (record f { fetched_at = none }, some n)
    ])
