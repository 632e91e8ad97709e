-- ===== src/Tests/Meters.antt =====
-- Two keys on two days: a Redis that keeps the rows, and a date.
use llm_gateway_rag.Common.{ℕ, false, true, String, [], ◌∷◌, List, ◌≡◌, refl}
use llm_gateway_rag.Metering.{UsageRow, UsageKey, MeterServices, Spending, record_usage}
use llm_gateway_rag.Metering.Ledger.{
  empty_row, apply, Counters, Balanced, tally, record_all, ledger, row-tally, row-Balanced,
}

record Rows : Type 0 where
  row : UsageKey → UsageRow
  day : ℕ

abbrev redis : MeterServices
redis = record {
  State = Rows;
  today = λ s. (s.day, s);
  pipeline = λ cs s. (true, record s { row = λ k. apply k cs (s.row k) });
  hgetall = λ ks s. ([], s);
}

abbrev counters : Counters redis
counters = record { row = λ k s. s.row k; kept_today = λ k s. refl; executed = λ k cs s h. refl }

abbrev paid : Spending
paid = record {
  prompt_tokens = 5;
  completion_tokens = 7;
  cost_usd = 80;
  cached = false;
  cost_saved_usd = 0;
  self_hosted = false;
}

abbrev hit : Spending
hit = record {
  prompt_tokens = 0;
  completion_tokens = 0;
  cost_usd = 0;
  cached = true;
  cost_saved_usd = 80;
  self_hosted = false;
}

abbrev calls : List (String × Spending)
calls = ("a", paid) ∷ ("b", record paid { self_hosted = true; cost_usd = 0 }) ∷ ("a", hit) ∷ []

abbrev key : UsageKey
key = record { key_id = "a"; day = 3 }

abbrev fresh : Rows
fresh = record { row = λ k. empty_row; day = 3 }

row-tally_example :
    (record_all redis 9 calls fresh).1.row key ≡ tally key (ledger redis 9 calls fresh) empty_row
unfolding record_all record_usage
row-tally_example = row-tally redis 9 counters key calls fresh refl

row-Balanced_example : Balanced (λ n. n) ((record_all redis 9 calls fresh).1.row key)
unfolding record_all record_usage
row-Balanced_example = row-Balanced redis 9 counters (λ n. n) key calls fresh refl refl
