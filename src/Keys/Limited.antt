-- ===== src/Keys/Limited.antt =====
-- The limit on a caller's requests and the guard of the admin routes, app/api/deps.py: `rate_limited` and
-- `require_admin`. An HTTP exception is an answer; the counter of metrics is left out.
use llm_gateway_rag.Common.{
  ◌≡◌, refl, sym, inl, inr, Bool-cases, ℕ, zero, suc, ◌+◌, ◌*◌, String, Bool, true, false, Option,
  none, some, max, if◌then◌else◌, arith,
}
use llm_gateway_rag.Common.Text.{Text}
use llm_gateway_rag.Common.Dict.{Dict, lookup, lookup-insert_self}
use llm_gateway_rag.Common.Fallible.{Fallible, done_injective}
use llm_gateway_rag.Keys.{KeyServices, Principal}
use llm_gateway_rag.Keys.Access.{Headers, Access, authenticate}
use llm_gateway_rag.RateLimit.{Bucket, Limit, RateLimitDecision, hit, refill, take_tokens}

-- `X-RateLimit-Limit` and `X-RateLimit-Remaining`
pub record RateHeaders : Type 0 where
  pub limit : ℕ
  pub remaining : ℕ

-- The principal with the headers of the response, 401, or 429 with `Retry-After`.
pub data Admission : Type 0 where
  admitted : Principal → RateHeaders → Admission
  unauthorized : String → Admission
  too_many_requests : RateHeaders → ℕ → Admission

-- `value or default`, on a number that may be none
abbrev pub or_default : Option ℕ → ℕ → ℕ
or_default none d = d
or_default (some zero) d = d
or_default (some (suc n)) d = suc n

-- The limit that a key's own numbers or the settings give. A capacity counts whole tokens, and a refill is what
-- the bucket gains in a tick.
unfoldable pub limit_of : Limit → ℕ → Principal → Limit
limit_of settings capacity p = record settings {
  capacity = or_default p.rate_limit_capacity capacity * settings.unit;
  rate = or_default p.rate_limit_refill_per_sec settings.rate;
}

abbrev pub headers_of : RateLimitDecision → RateHeaders
headers_of d = record { limit = d.limit; remaining = d.remaining }

-- `rate_limited`, what follows the decision
unfoldable pub admission_of : Principal → RateLimitDecision → Admission
admission_of p d =
    if d.allowed
    then Admission.admitted p (headers_of d)
    else Admission.too_many_requests (headers_of d) (max 1 d.retry_after_seconds)

-- `rate_limited`, what follows authentication: one token is taken at time `now`
unfoldable pub limited :
    Limit → ℕ → ℕ → Fallible Access → Dict Bucket → Fallible Admission × Dict Bucket
limited settings capacity now (Fallible.done (Access.granted p)) buckets =
    let (d, after) = hit (limit_of settings capacity p) p.key_id now settings.unit buckets in
    (Fallible.done (admission_of p d), after)
limited settings capacity now (Fallible.done (Access.unauthorized message)) buckets =
    (Fallible.done (Admission.unauthorized message), buckets)
limited settings capacity now Fallible.overloaded buckets = (Fallible.overloaded, buckets)
limited settings capacity now (Fallible.raised e) buckets = (Fallible.raised e, buckets)

-- `require_admin`, for the comparison in constant time: whether it lets the request pass
abbrev pub require_admin : (Text → Text → Bool) → Text → Option Text → Bool
require_admin constant_time_equals expected none = false
require_admin constant_time_equals expected (some token) = constant_time_equals token expected

take-Spends :
    (l : Limit) (bucket : Option Bucket) (now cost : ℕ)
    → (take_tokens l bucket now cost).0.allowed ≡ true
    → (take_tokens l bucket now cost).1.tokens + cost ≡ refill l bucket now
unfolding take_tokens
take-Spends l bucket now cost h = ground (arith, h)

admitted_only :
    (q p : Principal) (d : RateLimitDecision) (h : RateHeaders)
    → admission_of q d ≡ Admission.admitted p h
    → (q ≡ p) × (d.allowed ≡ true)
unfolding admission_of
admitted_only q p d h e = elim (Bool-cases d.allowed) [ inl y ↦ (cc, y) | inr n ↦ cc ]

-- An admitted request is the caller's that authentication granted, and has spent: the bucket of its key held a
-- token, and holds one less.
pub limited-Spends :
    (settings : Limit) (capacity now : ℕ) (a : Fallible Access) (buckets : Dict Bucket)
    (p : Principal) (h : RateHeaders)
    → (limited settings capacity now a buckets).0 ≡ Fallible.done (Admission.admitted p h)
    → (a ≡ Fallible.done (Access.granted p))
      × ((b : Bucket) × (lookup p.key_id (limited settings capacity now a buckets).1 ≡ some b)
          × (b.tokens + settings.unit
              ≡ refill (limit_of settings capacity p) (lookup p.key_id buckets) now))
unfolding limited hit
limited-Spends settings capacity now (Fallible.done (Access.granted q)) buckets p h e =
    let (same, allowed) = admitted_only q p _ h (done_injective e) in
    let l = limit_of settings capacity q in
    let bucket = lookup q.key_id buckets in
    let b = (take_tokens l bucket now settings.unit).1 in
    let spent = take-Spends l bucket now settings.unit allowed in
    rw (sym same) (refl, (b, lookup-insert_self q.key_id b buckets, spent))
limited-Spends settings capacity now (Fallible.done (Access.unauthorized m)) buckets p h e = cc
limited-Spends settings capacity now Fallible.overloaded buckets p h e = cc
limited-Spends settings capacity now (Fallible.raised m) buckets p h e = cc

module _ (v : KeyServices) where
  open v use {State}

  -- `rate_limited`
  unfoldable pub rate_limited :
      Limit → ℕ → ℕ → Headers → State × Dict Bucket → Fallible Admission × (State × Dict Bucket)
  rate_limited settings capacity now h (s, buckets) =
      let (a, after) = authenticate v h s in
      let (admission, buckets') = limited settings capacity now a buckets in
      (admission, (after, buckets'))

  pub rate_limited-Spends :
      (settings : Limit) (capacity now : ℕ) (h : Headers) (s : State × Dict Bucket) (p : Principal)
      (rate : RateHeaders)
      → (rate_limited settings capacity now h s).0 ≡ Fallible.done (Admission.admitted p rate)
      → ((authenticate v h s.0).0 ≡ Fallible.done (Access.granted p))
        × ((b : Bucket) × (lookup p.key_id (rate_limited settings capacity now h s).1.1 ≡ some b)
            × (b.tokens + settings.unit
                ≡ refill (limit_of settings capacity p) (lookup p.key_id s.1) now))
  unfolding rate_limited
  rate_limited-Spends settings capacity now h s p rate e =
      limited-Spends settings capacity now (authenticate v h s.0).0 s.1 p rate e
