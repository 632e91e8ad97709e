-- ===== src/Tests/Breakers.antt =====
-- The circuit breaker on concrete calls.
use llm_gateway_rag.Common.{true, false, some, List, [], ◌∷◌, ◌≡◌, refl, arith, if◌then◌else◌}
use llm_gateway_rag.Common.Int.{pos, ◌-ℤ◌}
use llm_gateway_rag.Breaker.{BreakerState, CircuitBreaker, init, allow_request, record_failure}
use llm_gateway_rag.Breaker.Protocol.{
  phase, allow_in, fail_in, IsValid, allow_request-phase, record_failure-phase,
}
use llm_gateway_rag.Breaker.Sequences.{
  Call, run, grants, fail_all, any_elapsed, run-IsValid, grants_opened,
}

abbrev fresh : CircuitBreaker
fresh = record {
  failure_threshold = 2;
  cooldown = pos 30;
  state = BreakerState.closed;
  consecutive_failures = 0;
  opened_at = pos 0;
  probe_in_flight = false;
}

abbrev tripped : CircuitBreaker
tripped = record fresh { state = BreakerState.opened; consecutive_failures = 2; opened_at = pos 10 }

abbrev probed : CircuitBreaker
probed = record tripped { state = BreakerState.half_open; probe_in_flight = true }

init_two : init 2 (pos 30) ≡ some fresh
unfolding init
init_two = refl

two_failures_open :
    (fail_all fresh ((pos 1, pos 1) ∷ (pos 2, pos 3) ∷ [])).state ≡ BreakerState.opened
unfolding fail_all record_failure
two_failures_open = refl

probe_after_cooldown : grants tripped (pos 20 ∷ pos 40 ∷ pos 41 ∷ []) ≡ 1
unfolding grants allow_request ◌-ℤ◌
probe_after_cooldown = refl

allow_request-phase_example :
    let (b', granted) = allow_request tripped (pos 40) in
    (phase b' (pos 40), granted) ≡ allow_in (phase tripped (pos 40))
allow_request-phase_example = allow_request-phase tripped (pos 40)

record_failure-phase_example :
    let (b', opened) = record_failure probed (pos 41) (pos 42) in
    (phase b' (pos 41), opened) ≡ fail_in 2 (pos 42) (phase probed (pos 41))
record_failure-phase_example =
    record_failure-phase probed (pos 41) (pos 42) (omega arith) (omega arith)

abbrev calls : List Call
calls =
    Call.failure (pos 1) (pos 1)
    ∷ Call.failure (pos 2) (pos 2)
    ∷ Call.allow (pos 40)
    ∷ Call.adopted BreakerState.opened 5 (pos 50)
    ∷ []

run-IsValid_example : IsValid (run fresh calls)
run-IsValid_example = run-IsValid 2 (pos 30) calls (tt, (tt, (tt, (tt, tt)))) init_two

grants_opened_example :
    grants tripped (pos 20 ∷ pos 40 ∷ [])
    ≡ (if any_elapsed tripped (pos 20 ∷ pos 40 ∷ []) then 1 else 0)
grants_opened_example = grants_opened tripped (pos 20 ∷ pos 40 ∷ []) refl
