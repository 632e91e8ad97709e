-- ===== src/Breaker.antt =====
-- The per-deployment circuit breaker, app/gateway/circuit_breaker.py. A method returns the new
-- object; the clock readings that it takes, in order, are its arguments. `_clock() - _opened_at`
-- is a difference of integers, so an adopted half-open state may lie before the clock's zero.
pub mod Protocol
pub mod Sequences
use llm_gateway_rag.Common.{
  ℕ, ◌+◌, Bool, true, false, ◌&&◌, ◌||◌, not, Option, none, some, leb, ltb, if◌then◌else◌,
}
use llm_gateway_rag.Common.Int.{ℤ, pos, ◌-ℤ◌, leb_ℤ}

pub data BreakerState : Type 0 where
  closed opened half_open : BreakerState

abbrev pub is_closed : BreakerState → Bool
is_closed BreakerState.closed = true
is_closed _ = false

abbrev pub is_open : BreakerState → Bool
is_open BreakerState.opened = true
is_open _ = false

abbrev pub is_half_open : BreakerState → Bool
is_half_open BreakerState.half_open = true
is_half_open _ = false

pub record CircuitBreaker : Type 0 where
  pub failure_threshold : ℕ
  pub cooldown : ℤ
  pub state : BreakerState
  pub consecutive_failures : ℕ
  pub opened_at : ℤ
  pub probe_in_flight : Bool

-- `__init__`; `none` is the `ValueError`
unfoldable pub init : ℕ → ℤ → Option CircuitBreaker
init threshold cooldown =
    if ltb threshold 1
    then none
    else some (record {
      failure_threshold = threshold;
      cooldown = cooldown;
      state = BreakerState.closed;
      consecutive_failures = 0;
      opened_at = pos 0;
      probe_in_flight = false;
    })

-- the property `state`, which moves an open breaker whose cooldown has elapsed to half-open
unfoldable pub read_state : CircuitBreaker → ℤ → CircuitBreaker
read_state b now =
    if is_open b.state && leb_ℤ b.cooldown (now -ℤ b.opened_at)
    then record b { state = BreakerState.half_open; probe_in_flight = false }
    else b

unfoldable pub allow_request : CircuitBreaker → ℤ → CircuitBreaker × Bool
unfolding read_state
allow_request b now =
    let b' = read_state b now in
    if is_closed b'.state
    then (b', true)
    else if is_half_open b'.state && not b'.probe_in_flight
    then (record b' { probe_in_flight = true }, true)
    else (b', false)

unfoldable pub adopt : CircuitBreaker → BreakerState → ℕ → ℤ → CircuitBreaker
adopt b BreakerState.closed n now = record b {
  state = BreakerState.closed;
  consecutive_failures = n;
}
adopt b BreakerState.opened n now = record b {
  state = BreakerState.opened;
  consecutive_failures = n;
  opened_at = now;
  probe_in_flight = false;
}
adopt b BreakerState.half_open n now = record b {
  state = BreakerState.half_open;
  consecutive_failures = n;
  opened_at = now -ℤ b.cooldown;
  probe_in_flight = false;
}

unfoldable pub record_success : CircuitBreaker → CircuitBreaker
record_success b = record b {
  state = BreakerState.closed;
  consecutive_failures = 0;
  probe_in_flight = false;
}

-- `now` is the reading that `self.state` takes, `later` the one that stamps `_opened_at`.
unfoldable pub record_failure : CircuitBreaker → ℤ → ℤ → CircuitBreaker × Bool
unfolding read_state
record_failure b now later =
    let counted = record b { consecutive_failures = b.consecutive_failures + 1 } in
    let b' = read_state counted now in
    if is_half_open b'.state
      || (is_closed b'.state && leb b'.failure_threshold b'.consecutive_failures)
    then (
      record b' { state = BreakerState.opened; opened_at = later; probe_in_flight = false },
      true,
    )
    else (b', false)
