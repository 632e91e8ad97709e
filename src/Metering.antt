-- ===== src/Metering.antt =====
-- Usage per API key and day, app/core/metering.py. Redis and the date are a parameter; a pipeline
-- tells whether it was executed or raised.
pub mod Ledger
use llm_gateway_rag.Common.{
  ℕ, zero, suc, ◌+◌, ◌-◌, String, Bool, true, false, List, [], ◌∷◌, ◌++◌, map, max, if◌then◌else◌,
}
use llm_gateway_rag.Common.Action.{Action, pure, ◌>>=◌}

-- The hash of one key and day, with costs in a fixed unit; a field that is missing counts 0.
pub record UsageRow : Type 0 where
  pub requests : ℕ
  pub cache_hits : ℕ
  pub prompt_tokens : ℕ
  pub completion_tokens : ℕ
  pub cost_usd : ℕ
  pub cost_saved_usd : ℕ
  pub self_hosted_requests : ℕ
  pub self_hosted_cost_usd : ℕ

pub data UsageField : Type 0 where
  requests cache_hits prompt_tokens completion_tokens cost_usd cost_saved_usd : UsageField
  self_hosted_requests self_hosted_cost_usd : UsageField

-- `_key`; a day is its number
pub record UsageKey : Type 0 where
  pub key_id : String
  pub day : ℕ

pub data MeterCommand : Type 0 where
  hincrby : UsageKey → UsageField → ℕ → MeterCommand
  expire : UsageKey → ℕ → MeterCommand

pub record MeterServices : Type 1 where
  pub State : Type 0
  pub today : Action State ℕ
  pub pipeline : List MeterCommand → Action State Bool
  pub hgetall : List UsageKey → Action State (List UsageRow)

-- `DailyUsage`
pub record DailyUsage : Type 0 where
  pub date : ℕ
  pub row : UsageRow

-- the properties `provider_requests` and `provider_cost_usd`
abbrev pub provider_requests : UsageRow → ℕ
provider_requests r = r.requests - r.cache_hits - r.self_hosted_requests

-- with `round(…, 8)` as a parameter
abbrev pub provider_cost_usd : (ℕ → ℕ) → UsageRow → ℕ
provider_cost_usd round8 r = round8 (r.cost_usd - r.self_hosted_cost_usd)

-- the keyword arguments of `record`
pub record Spending : Type 0 where
  pub prompt_tokens : ℕ
  pub completion_tokens : ℕ
  pub cost_usd : ℕ
  pub cached : Bool
  pub cost_saved_usd : ℕ
  pub self_hosted : Bool

unfoldable pub usage_commands : UsageKey → Spending → List MeterCommand
usage_commands k u =
    MeterCommand.hincrby k UsageField.requests 1
    ∷ (if u.cached
        then MeterCommand.hincrby k UsageField.cache_hits 1
          ∷ MeterCommand.hincrby k UsageField.cost_saved_usd u.cost_saved_usd
          ∷ []
        else MeterCommand.hincrby k UsageField.prompt_tokens u.prompt_tokens
          ∷ MeterCommand.hincrby k UsageField.completion_tokens u.completion_tokens
          ∷ MeterCommand.hincrby k UsageField.cost_usd u.cost_usd
          ∷ (if u.self_hosted
              then MeterCommand.hincrby k UsageField.self_hosted_requests 1
                ∷ MeterCommand.hincrby k UsageField.self_hosted_cost_usd u.cost_usd
                ∷ []
              else []))

-- `[today - timedelta(days=i) for i in range(days - 1, -1, -1)]`
abbrev pub dates_until : ℕ → ℕ → List ℕ
dates_until today zero = []
dates_until today (suc i) = (today - i) ∷ dates_until today i

abbrev pub zip_rows : List ℕ → List UsageRow → List DailyUsage
zip_rows (d ∷ ds) (r ∷ rs) = record { date = d; row = r } ∷ zip_rows ds rs
zip_rows _ _ = []

module _ (p : MeterServices) (retention : ℕ) where
  open p use {State, today, pipeline, hgetall}

  -- `record`, for `now` left out
  unfoldable pub record_usage : String → Spending → Action State Bool
  record_usage key_id u = do
    day ← today
    let key : UsageKey = record { key_id = key_id; day = day }
    pipeline (usage_commands key u ++ MeterCommand.expire key retention ∷ [])

  -- `daily`, for `today` left out
  unfoldable pub daily : String → ℕ → Action State (List DailyUsage)
  daily key_id days = do
    day ← today
    let dates = dates_until day days
    rows ← hgetall (map (λ d. record { key_id = key_id; day = d }) dates)
    pure (zip_rows dates rows)
