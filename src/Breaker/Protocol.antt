-- ===== src/Breaker/Protocol.antt =====
-- The breaker as the protocol that its docstring promises, and its invariant.
use llm_gateway_rag.Common.{
  ℕ, ◌+◌, ◌<◌, ◌≤◌, ◌≡◌, Bool, true, false, some, leb, arith, if◌then◌else◌,
}
use llm_gateway_rag.Common.Int.{ℤ, pos, ◌-ℤ◌, ◌≤ℤ◌, leb_ℤ, -ℤ_parts}
use llm_gateway_rag.Breaker.{
  BreakerState, CircuitBreaker, init, allow_request, record_success, record_failure,
}

-- What a caller can tell apart at one instant.
pub data Phase : Type 0 where
  counting : ℕ → Phase
  cooling : ℤ → Phase
  awaiting_probe probing : Phase

abbrev pub phase_of : BreakerState → CircuitBreaker → ℤ → Phase
phase_of BreakerState.closed b now = Phase.counting b.consecutive_failures
phase_of BreakerState.opened b now =
    if leb_ℤ b.cooldown (now -ℤ b.opened_at)
    then Phase.awaiting_probe
    else Phase.cooling b.opened_at
phase_of BreakerState.half_open b now =
    if b.probe_in_flight then Phase.probing else Phase.awaiting_probe

abbrev pub phase : CircuitBreaker → ℤ → Phase
phase b now = phase_of b.state b now

abbrev pub allow_in : Phase → Phase × Bool
allow_in (Phase.counting n) = (Phase.counting n, true)
allow_in (Phase.cooling since) = (Phase.cooling since, false)
allow_in Phase.awaiting_probe = (Phase.probing, true)
allow_in Phase.probing = (Phase.probing, false)

abbrev pub fail_in : ℕ → ℤ → Phase → Phase × Bool
fail_in threshold now (Phase.counting n) =
    if leb threshold (n + 1) then (Phase.cooling now, true) else (Phase.counting (n + 1), false)
fail_in threshold now (Phase.cooling since) = (Phase.cooling since, false)
fail_in threshold now _ = (Phase.cooling now, true)

-- Asking for admission follows the protocol: a counting breaker admits, a cooling one refuses,
-- one whose cooldown is over admits a single probe, and nothing else while that probe is out.
pub allow_request-phase :
    (b : CircuitBreaker) (now : ℤ)
    → let (b', granted) = allow_request b now in (phase b' now, granted) ≡ allow_in (phase b now)
unfolding allow_request
allow_request-phase b now = ground arith

-- A failure follows the protocol, when the cooldown is positive and the second clock reading is
-- not before the first: it counts up to the threshold and then opens the circuit, it re-opens a
-- circuit that waits for a probe or its outcome, and a cooling circuit stays as it is. The method
-- returns true exactly when the circuit opens.
pub record_failure-phase :
    (b : CircuitBreaker) (now later : ℤ)
    → now ≤ℤ later
    → pos 1 ≤ℤ b.cooldown
    → let (b', opened) = record_failure b now later in
      (phase b' now, opened) ≡ fail_in b.failure_threshold later (phase b now)
unfolding record_failure
record_failure-phase b now later h k = ground (arith, -ℤ_parts now later)

pub record IsValid (b : CircuitBreaker) : Type 0 where
  pub positive : 1 ≤ b.failure_threshold
  pub counted : b.state ≡ BreakerState.closed → b.consecutive_failures < b.failure_threshold
  pub probed : b.probe_in_flight ≡ true → b.state ≡ BreakerState.half_open

pub init-IsValid : (n : ℕ) (d : ℤ) {b : CircuitBreaker} → init n d ≡ some b → IsValid b
unfolding init
init-IsValid n d h = ground arith

pub allow_request-IsValid :
    (b : CircuitBreaker) (now : ℤ) → IsValid b → IsValid (allow_request b now).0
unfolding allow_request
allow_request-IsValid b now v = ground arith

pub record_failure-IsValid :
    (b : CircuitBreaker) (now later : ℤ) → IsValid b → IsValid (record_failure b now later).0
unfolding record_failure
record_failure-IsValid b now later v = ground arith

pub record_success-IsValid : (b : CircuitBreaker) → IsValid b → IsValid (record_success b)
unfolding record_success
record_success-IsValid b v = ground arith
