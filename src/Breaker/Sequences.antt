-- ===== src/Breaker/Sequences.antt =====
-- What holds of the breaker over whole sequences of calls.
use llm_gateway_rag.Common.{
  ℕ, ◌+◌, ◌≤◌, ◌≡◌, refl, Bool, true, false, some, List, [], ◌∷◌, leb, arith, length, All,
  if◌then◌else◌,
}
use llm_gateway_rag.Common.Int.{ℤ, ◌-ℤ◌, leb_ℤ}
use llm_gateway_rag.Breaker.{
  BreakerState, CircuitBreaker, is_open, init, allow_request, adopt, record_success, record_failure,
}
use llm_gateway_rag.Breaker.Protocol.{
  IsValid, init-IsValid, allow_request-IsValid, record_failure-IsValid, record_success-IsValid,
}

pub data Call : Type 0 where
  allow : ℤ → Call
  failure : ℤ → ℤ → Call
  success : Call
  adopted : BreakerState → ℕ → ℤ → Call

abbrev pub call : CircuitBreaker → Call → CircuitBreaker
call b (Call.allow now) = (allow_request b now).0
call b (Call.failure now later) = (record_failure b now later).0
call b Call.success = record_success b
call b (Call.adopted state n now) = adopt b state n now

-- The call is not the adoption of a closed state, which takes over any count and forgets no probe.
abbrev pub AdoptsNoClosed : Call → Type 0
AdoptsNoClosed (Call.adopted BreakerState.closed n now) = ⊥
AdoptsNoClosed c = Unit

unfoldable pub run : CircuitBreaker → List Call → CircuitBreaker
run b [] = b
run b (c ∷ cs) = run (call b c) cs

adopt-IsValid :
    (b : CircuitBreaker) (state : BreakerState) (n : ℕ) (now : ℤ)
    → AdoptsNoClosed (Call.adopted state n now)
    → IsValid b
    → IsValid (adopt b state n now)
unfolding adopt
adopt-IsValid b BreakerState.closed n now a v = absurd a
adopt-IsValid b BreakerState.opened n now a v = ground arith
adopt-IsValid b BreakerState.half_open n now a v = ground arith

call-IsValid : (b : CircuitBreaker) (c : Call) → AdoptsNoClosed c → IsValid b → IsValid (call b c)
call-IsValid b (Call.allow now) a v = allow_request-IsValid b now v
call-IsValid b (Call.failure now later) a v = record_failure-IsValid b now later v
call-IsValid b Call.success a v = record_success-IsValid b v
call-IsValid b (Call.adopted state n now) a v = adopt-IsValid b state n now a v

run_from-IsValid :
    (b : CircuitBreaker) (cs : List Call) → All AdoptsNoClosed cs → IsValid b → IsValid (run b cs)
unfolding run
run_from-IsValid b [] a v = v
run_from-IsValid b (c ∷ cs) (a, rest) v = run_from-IsValid (call b c) cs rest (call-IsValid b c a v)

-- Whatever is called on a breaker that its constructor accepted, at whatever times, the adoption of an open or
-- half-open state of another replica included, but not that of a closed one: a closed breaker has counted
-- fewer failures than its threshold, and a probe is out only while half-open.
pub run-IsValid :
    (n : ℕ) (d : ℤ) (cs : List Call) {b : CircuitBreaker}
    → All AdoptsNoClosed cs
    → init n d ≡ some b
    → IsValid (run b cs)
run-IsValid n d cs {b} a h = run_from-IsValid b cs a (init-IsValid n d h)

-- `allow_request` again and again, counting what is granted.
unfoldable pub grants : CircuitBreaker → List ℤ → ℕ
grants b [] = 0
grants b (now ∷ ts) =
    let (b', granted) = allow_request b now in (if granted then 1 else 0) + grants b' ts

-- While a half-open breaker's probe is out and no outcome is recorded, it grants nothing, at any
-- time: a probe whose outcome never comes shuts its deployment out.
pub none_while_probing :
    (b : CircuitBreaker) (ts : List ℤ)
    → b.state ≡ BreakerState.half_open
    → b.probe_in_flight ≡ true
    → grants b ts ≡ 0
unfolding grants allow_request
none_while_probing b [] h p = refl
none_while_probing b (now ∷ ts) h p = ground (arith, none_while_probing (allow_request b now).0 ts)

-- An open breaker, asked at any times, grants at most one request until an outcome is recorded.
pub grants-le-one :
    (b : CircuitBreaker) (ts : List ℤ) → b.state ≡ BreakerState.opened → grants b ts ≤ 1
unfolding grants allow_request
grants-le-one b [] h = omega arith
grants-le-one b (now ∷ ts) h =
    ground (
      arith,
      grants-le-one (allow_request b now).0 ts,
      none_while_probing (allow_request b now).0 ts,
    )

-- It grants exactly one if one of those requests comes after the cooldown, and none otherwise.
abbrev pub any_elapsed : CircuitBreaker → List ℤ → Bool
any_elapsed b [] = false
any_elapsed b (now ∷ ts) = if leb_ℤ b.cooldown (now -ℤ b.opened_at) then true else any_elapsed b ts

-- An open breaker, asked at any times, grants exactly one request if some request comes once the
-- cooldown has elapsed, and no request at all otherwise.
pub grants_opened :
    (b : CircuitBreaker) (ts : List ℤ)
    → b.state ≡ BreakerState.opened
    → grants b ts ≡ (if any_elapsed b ts then 1 else 0)
unfolding grants allow_request
grants_opened b [] h = refl
grants_opened b (now ∷ ts) h =
    ground (
      arith,
      grants_opened (allow_request b now).0 ts,
      none_while_probing (allow_request b now).0 ts,
    )

unfoldable pub fail_all : CircuitBreaker → List (ℤ × ℤ) → CircuitBreaker
fail_all b [] = b
fail_all b ((now, later) ∷ ts) = fail_all (record_failure b now later).0 ts

stays_open :
    (b : CircuitBreaker) (ts : List (ℤ × ℤ))
    → b.state ≡ BreakerState.opened
    → (fail_all b ts).state ≡ BreakerState.opened
unfolding fail_all record_failure
stays_open b [] h = h
stays_open b ((now, later) ∷ ts) h = stays_open (record_failure b now later).0 ts (ground arith)

opens_from :
    (b : CircuitBreaker) (ts : List (ℤ × ℤ))
    → IsValid b
    → b.state ≡ BreakerState.closed
    → is_open (fail_all b ts).state ≡ leb b.failure_threshold (b.consecutive_failures + length ts)
unfolding fail_all record_failure
opens_from b [] v h = ground arith
opens_from b ((now, later) ∷ ts) v h = ground (
  arith,
  opens_from (record_failure b now later).0 ts (record_failure-IsValid b now later v),
  stays_open (record_failure b now later).0 ts,
)

-- After consecutive failures on a new breaker, at whatever times, the circuit is open exactly if
-- there were at least `failure_threshold` of them.
pub fail_all_opens :
    (n : ℕ) (d : ℤ) (ts : List (ℤ × ℤ)) {b : CircuitBreaker}
    → init n d ≡ some b
    → is_open (fail_all b ts).state ≡ leb n (length ts)
unfolding init
fail_all_opens n d ts {b} h = ground (arith, opens_from b ts (init-IsValid n d h))
