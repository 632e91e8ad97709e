-- ===== src/RateLimit/Grants.antt =====
-- How much a bucket grants over a run of requests.
use llm_gateway_rag.Common.{
  ℕ, ◌+◌, ◌-◌, ◌*◌, ◌≤◌, ◌≡◌, ◌↔◌, refl, sym, ap, ◌∙◌, inl, inr, true, false, Option, some, List,
  [], ◌∷◌, leb, min, arith, Bool-cases, if◌then◌else◌,
}
use native.Mathlib.Nat.{add-mul}
use llm_gateway_rag.RateLimit.{Bucket, Taken, Limit, refill, take_tokens}

-- The cost of a request, if it was granted.
abbrev pub granted : Taken → ℕ → ℕ
granted h cost = if h.allowed then cost else 0

-- What a bucket grants over requests at given times for given costs.
unfoldable pub total_granted : Limit → Bucket → List (ℕ × ℕ) → ℕ
total_granted l b [] = 0
total_granted l b ((now, cost) ∷ requests) =
    let (h, b') = take_tokens l (some b) now cost in granted h cost + total_granted l b' requests

-- Times that do not go back, from a time to a last one.
abbrev pub Ascends : ℕ → List (ℕ × ℕ) → ℕ → Type 0
Ascends t [] last = t ≤ last
Ascends t ((now, cost) ∷ requests) last = (t ≤ now) × Ascends now requests last

Ascends-le : (t : ℕ) (requests : List (ℕ × ℕ)) (last : ℕ) → Ascends t requests last → t ≤ last
Ascends-le t [] last h = h
Ascends-le t ((now, cost) ∷ requests) last h = omega (arith, h.0, Ascends-le now requests last h.1)

take_tokens-Bounded :
    (l : Limit) (b : Bucket) (now cost : ℕ)
    → let (h, b') = take_tokens l (some b) now cost in
      (granted h cost + b'.tokens ≤ b.tokens + (now - b.ts) * l.rate)
      × (granted h cost + b'.tokens ≤ l.capacity)
      × (b'.ts ≡ now)
unfolding take_tokens refill
take_tokens-Bounded l b now cost =
    let tokens = min l.capacity (b.tokens + (now - b.ts) * l.rate) in
    elim (Bool-cases (leb cost tokens)) [
      | inl e ↦ rw e (ground (arith, e), ground (arith, e), refl)
      | inr e ↦ rw e (omega arith, omega arith, refl)
    ]

elapsed : (a b c r : ℕ) → a ≤ b → b ≤ c → (b - a) * r + (c - b) * r ≡ (c - a) * r
elapsed a b c r h k = sym (add-mul (b - a) (c - b) r) ∙ ap (λ n. n * r) (omega (arith, h, k))

total_granted-refilled :
    (l : Limit) (b : Bucket) (requests : List (ℕ × ℕ)) (last : ℕ)
    → Ascends b.ts requests last
    → total_granted l b requests ≤ b.tokens + (last - b.ts) * l.rate
unfolding total_granted
total_granted-refilled l b [] last h = omega arith
total_granted-refilled l b ((now, cost) ∷ requests) last (h, k) =
    let (x, y, z) = take_tokens-Bounded l b now cost in
    let b' = (take_tokens l (some b) now cost).1 in
    let rest : total_granted l b' requests ≤ b'.tokens + (last - b'.ts) * l.rate =
      total_granted-refilled l b' requests last (rw z k) in
    let same : (last - b'.ts) * l.rate ≡ (last - now) * l.rate = ap (λ t. (last - t) * l.rate) z in
    omega (arith, x, rest, same, elapsed b.ts now last l.rate h (Ascends-le now requests last k))

-- Whatever a bucket held, the requests of any interval, at times that do not go back, are granted
-- no more than the capacity and what is refilled in the interval.
pub total_granted-Bounded :
    (l : Limit) (b : Bucket) (now cost : ℕ) (requests : List (ℕ × ℕ)) (last : ℕ)
    → Ascends now requests last
    → total_granted l b ((now, cost) ∷ requests) ≤ l.capacity + (last - now) * l.rate
unfolding total_granted
total_granted-Bounded l b now cost requests last h =
    let (x, y, z) = take_tokens-Bounded l b now cost in
    let b' = (take_tokens l (some b) now cost).1 in
    let rest : total_granted l b' requests ≤ b'.tokens + (last - b'.ts) * l.rate =
      total_granted-refilled l b' requests last (rw z h) in
    let same : (last - b'.ts) * l.rate ≡ (last - now) * l.rate = ap (λ t. (last - t) * l.rate) z in
    omega (arith, y, rest, same)

later_iff :
    (l : Limit) (tokens ts cost later : ℕ)
    → cost ≤ l.capacity
    → leb cost tokens ≡ false
    → ((take_tokens l (some (record { tokens = tokens; ts = ts })) later cost).0.allowed ≡ true)
      ↔ (cost - tokens ≤ (later - ts) * l.rate)
unfolding take_tokens refill
later_iff l tokens ts cost later c e =
    let full = min l.capacity (tokens + (later - ts) * l.rate) in
    elim (Bool-cases (leb cost full)) [
      | inl f ↦ rw f ((λ p. ground (arith, e, f)), (λ p. refl))
      | inr f ↦ rw f ((λ p. absurd (ground (arith, p))), (λ p. absurd (ground (arith, c, e, f, p))))
    ]

-- A refused request that the bucket can hold is granted on a later attempt, with no other request
-- between, exactly from the time on when the refill covers what it was missing.
pub refused-retry_iff :
    (l : Limit) (b : Option Bucket) (now cost later : ℕ)
    → cost ≤ l.capacity
    → let (h, b') = take_tokens l b now cost in
      h.allowed ≡ false
      → ((take_tokens l (some b') later cost).0.allowed ≡ true)
        ↔ (h.missing ≤ (later - now) * l.rate)
unfolding take_tokens
refused-retry_iff l b now cost later c h = elim (Bool-cases (leb cost (refill l b now))) [
  | inl e ↦ absurd (ground (arith, h, e))
  | inr e ↦ rw e (later_iff l (refill l b now) now cost later c e)
]
