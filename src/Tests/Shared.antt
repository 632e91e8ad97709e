-- ===== src/Tests/Shared.antt =====
-- The shared breakers on the bench, with Redis and without.
use llm_gateway_rag.Common.{
  ℕ, String, true, false, none, some, [], ◌∷◌, ◌≡◌, ◌≢◌, refl, arith, All, str_eq_iff,
}
use llm_gateway_rag.Common.Int.{ℤ, pos}
use llm_gateway_rag.Common.Dict.{Dict, lookup}
use llm_gateway_rag.Breaker
use llm_gateway_rag.Breaker.{BreakerState, CircuitBreaker, adopt}
use llm_gateway_rag.Environment.{Key, Command, Reply}
use llm_gateway_rag.Cluster.{ClusterBreakers, record_failure}
use llm_gateway_rag.Cluster.Degraded.{record_failure_unreachable}
use llm_gateway_rag.Cluster.Probing.{NxLaws, claim_all, claim_all_one}
use llm_gateway_rag.Tests.Bench.{World, bench, offline, world, held, same_key_refl}

abbrev breaker : CircuitBreaker
breaker = record {
  failure_threshold = 3;
  cooldown = pos 30000;
  state = BreakerState.closed;
  consecutive_failures = 0;
  opened_at = pos 0;
  probe_in_flight = false;
}

abbrev cluster : ClusterBreakers
cluster = record {
  failure_threshold = 3;
  cooldown = pos 30000;
  failure_window = pos 60000;
  refresh = pos 1000;
  probe_time = pos 5000;
  synced_at = none;
}

abbrev locals : Dict CircuitBreaker
locals = ("primary", breaker) ∷ ("backup", breaker) ∷ []

record_failure_unreachable_example :
    (record_failure offline cluster "primary" breaker world).0
    ≡ Breaker.record_failure breaker (pos 100) (pos 101)
record_failure_unreachable_example =
    record_failure_unreachable offline (λ cs s. refl) cluster "primary" breaker world

-- the third failure of the pool, the first one here
pooled_third : (record_failure bench cluster "primary" breaker world).0.1 ≡ true
unfolding record_failure Breaker.record_failure
pooled_third = refl

backup_not_asked : All (λ (n : String). n ≢ "backup") ("primary" ∷ [])
backup_not_asked = (λ p. cc ((str_eq_iff "primary" "backup").1 p), tt)

abbrev flagged : World
flagged = record world { keys = Key.opened "primary" ∷ [] }

primary_known : lookup "primary" locals ≡ some breaker
unfolding lookup
primary_known = refl

bench_free :
    (k : Key) (n : ℕ) (s : World)
    → held k s ≡ false
    → let (r, s') = bench.execute (Command.set k n true ∷ []) s in
      (r ≡ some (Reply.value 1 ∷ [])) × (held k s' ≡ true)
bench_free k n s h = ground (arith, same_key_refl k)

bench_taken :
    (k : Key) (n : ℕ) (s : World)
    → held k s ≡ true
    → let (r, s') = bench.execute (Command.set k n true ∷ []) s in
      (r ≡ some (Reply.nil ∷ [])) × (held k s' ≡ true)
bench_taken k n s h = ground arith

bench_laws : NxLaws bench held
bench_laws = record { free = bench_free; taken = bench_taken; clock_keeps = λ k s. refl }

abbrev tripped : CircuitBreaker
tripped = record breaker { state = BreakerState.opened; opened_at = pos 50 }

claim_all_one_example :
    (t : ℤ) × ((claim_all bench cluster "primary" (tripped ∷ tripped ∷ tripped ∷ []) world).0
      ≡ adopt tripped BreakerState.half_open 0 t ∷ tripped ∷ tripped ∷ [])
claim_all_one_example =
    claim_all_one bench held bench_laws cluster "primary" tripped (tripped ∷ tripped ∷ []) world
      refl
