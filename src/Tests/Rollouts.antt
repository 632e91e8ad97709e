-- ===== src/Tests/Rollouts.antt =====
-- A canary with too many errors.
use llm_gateway_rag.Common.{none, some, []}
use llm_gateway_rag.Common.Int.{pos}
use llm_gateway_rag.Rollout.{CanaryState, RolloutServices, RolloutSettings, Manager}

abbrev candidate : CanaryState
candidate = record {
  version = "v2";
  weight = 10;
  note = none;
  created_at = "2024-01-01";
  rolled_back_at = none;
  rollback_reason = none;
}

-- a Redis with the candidate, 30 requests and 9 errors
abbrev services : RolloutServices
services = record {
  State = Unit;
  clock = λ w. (pos 5, w);
  random = λ w. (50, w);
  unit = 1000;
  execute = λ cs w. (some 1, w);
  read_tables = λ w. (some (none, some (candidate, [])), w);
  read_stats = λ s w. (some (30, 9), w);
  now = λ w. ("2024-01-02", w);
  from_text = λ t. none;
  fingerprint = λ c. "v2";
}

abbrev settings : RolloutSettings
settings = record {
  min_requests = 20;
  max_error_rate = 100;
  refresh = pos 1000;
  fallback = ("v1", []);
}

abbrev manager : Manager services settings
manager = (record { stable = none; canary = none; fetched_at = none }, tt)
