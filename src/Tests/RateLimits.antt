-- ===== src/Tests/RateLimits.antt =====
-- A bucket of three tokens that refills by one in two ticks.
use llm_gateway_rag.Common.{◌+◌, ◌-◌, ◌*◌, ◌≤◌, ◌≡◌, ◌↔◌, refl, true, some, [], ◌∷◌, arith}
use llm_gateway_rag.RateLimit.{Bucket, Limit, take_tokens, refill}
use llm_gateway_rag.RateLimit.Grants.{total_granted, total_granted-Bounded, refused-retry_iff}

-- the unit is half a token
abbrev limit : Limit
limit = record { capacity = 6; rate = 1; unit = 2; ticks_per_second = 1000 }

abbrev bucket : Bucket
bucket = record { tokens = 1; ts = 10 }

total_granted-Bounded_example :
    total_granted limit bucket ((20, 2) ∷ (21, 2) ∷ (25, 2) ∷ [])
    ≤ limit.capacity + (30 - 20) * limit.rate
total_granted-Bounded_example =
    total_granted-Bounded limit bucket 20 2 ((21, 2) ∷ (25, 2) ∷ []) 30
      (omega arith, (omega arith, omega arith))

refused-retry_iff_example :
    let (h, b') = take_tokens limit (some bucket) 10 2 in
    ((take_tokens limit (some b') 11 2).0.allowed ≡ true) ↔ (h.missing ≤ (11 - 10) * limit.rate)
unfolding take_tokens refill
refused-retry_iff_example = refused-retry_iff limit (some bucket) 10 2 11 (omega arith) refl
