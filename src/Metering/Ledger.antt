-- ===== src/Metering/Ledger.antt =====
-- The rows of app/core/metering.py against a ledger of what was spent.
use llm_gateway_rag.Common.{
  ℕ, ◌+◌, ◌-◌, ◌≤◌, ◌≡◌, refl, ap, ◌∙◌, inl, inr, String, Bool, true, ◌&&◌, List, [], ◌∷◌, ◌++◌,
  ◌==◌, str_eq, if◌then◌else◌, arith, Bool-cases,
}
use llm_gateway_rag.Metering.{
  UsageRow, UsageField, UsageKey, MeterCommand, MeterServices, Spending, usage_commands,
  record_usage, provider_requests, provider_cost_usd,
}

abbrev pub empty_row : UsageRow
empty_row = record {
  requests = 0;
  cache_hits = 0;
  prompt_tokens = 0;
  completion_tokens = 0;
  cost_usd = 0;
  cost_saved_usd = 0;
  self_hosted_requests = 0;
  self_hosted_cost_usd = 0;
}

abbrev pub add_to : UsageField → ℕ → UsageRow → UsageRow
add_to UsageField.requests n r = record r { requests = r.requests + n }
add_to UsageField.cache_hits n r = record r { cache_hits = r.cache_hits + n }
add_to UsageField.prompt_tokens n r = record r { prompt_tokens = r.prompt_tokens + n }
add_to UsageField.completion_tokens n r = record r { completion_tokens = r.completion_tokens + n }
add_to UsageField.cost_usd n r = record r { cost_usd = r.cost_usd + n }
add_to UsageField.cost_saved_usd n r = record r { cost_saved_usd = r.cost_saved_usd + n }
add_to UsageField.self_hosted_requests n r = record r {
  self_hosted_requests = r.self_hosted_requests + n;
}
add_to UsageField.self_hosted_cost_usd n r = record r {
  self_hosted_cost_usd = r.self_hosted_cost_usd + n;
}

unfoldable pub same_key : UsageKey → UsageKey → Bool
same_key k j = str_eq k.key_id j.key_id && k.day == j.day

-- HINCRBY and HINCRBYFLOAT as documented, on the hash of one key.
abbrev pub apply : UsageKey → List MeterCommand → UsageRow → UsageRow
apply k [] r = r
apply k (MeterCommand.hincrby j f n ∷ cs) r = apply k cs (if same_key j k then add_to f n r else r)
apply k (MeterCommand.expire j n ∷ cs) r = apply k cs r

-- What Redis documents of these commands, for a pipeline that it executes; the hashes do not expire
-- while they are looked at.
pub record Counters (p : MeterServices) : Type 0 where
  pub row : UsageKey → p.State → UsageRow
  pub kept_today : (k : UsageKey) (s : p.State) → row k (p.today s).1 ≡ row k s
  pub executed :
      (k : UsageKey) (cs : List MeterCommand) (s : p.State)
      → (p.pipeline cs s).0 ≡ true
      → row k (p.pipeline cs s).1 ≡ apply k cs (row k s)

-- The row after one more spending, as the fields of `DailyUsage` describe it.
unfoldable pub spend : Spending → UsageRow → UsageRow
spend u r =
    if u.cached
    then record r {
      requests = r.requests + 1;
      cache_hits = r.cache_hits + 1;
      cost_saved_usd = r.cost_saved_usd + u.cost_saved_usd;
    }
    else if u.self_hosted
    then record r {
      requests = r.requests + 1;
      prompt_tokens = r.prompt_tokens + u.prompt_tokens;
      completion_tokens = r.completion_tokens + u.completion_tokens;
      cost_usd = r.cost_usd + u.cost_usd;
      self_hosted_requests = r.self_hosted_requests + 1;
      self_hosted_cost_usd = r.self_hosted_cost_usd + u.cost_usd;
    }
    else record r {
      requests = r.requests + 1;
      prompt_tokens = r.prompt_tokens + u.prompt_tokens;
      completion_tokens = r.completion_tokens + u.completion_tokens;
      cost_usd = r.cost_usd + u.cost_usd;
    }

-- The ledger: whose spending, on which day.
pub record Entry : Type 0 where
  pub key : UsageKey
  pub spending : Spending

unfoldable pub tally : UsageKey → List Entry → UsageRow → UsageRow
tally k [] r = r
tally k (x ∷ xs) r = tally k xs (if same_key x.key k then spend x.spending r else r)

apply-usage_commands :
    (k j : UsageKey) (u : Spending) (n : ℕ) (r : UsageRow)
    → apply k (usage_commands j u ++ MeterCommand.expire j n ∷ []) r
      ≡ (if same_key j k then spend u r else r)
unfolding usage_commands spend
apply-usage_commands k j u n r = elim (Bool-cases (same_key j k)) [
  | inl e ↦ elim (Bool-cases u.cached) [
    | inl c ↦ rw (c, e) refl
    | inr c ↦ elim (Bool-cases u.self_hosted) [
      | inl h ↦ rw (c, h, e) refl
      | inr h ↦ rw (c, h, e) refl
    ]
  ]
  | inr e ↦ elim (Bool-cases u.cached) [
    | inl c ↦ rw (c, e) refl
    | inr c ↦ elim (Bool-cases u.self_hosted) [
      | inl h ↦ rw (c, h, e) refl
      | inr h ↦ rw (c, h, e) refl
    ]
  ]
]

-- Every request is a cache hit, self-hosted or a provider's; and the provider's cost is what is left of the whole
-- cost, up to its rounding.
abbrev pub Balanced : (ℕ → ℕ) → UsageRow → Type 0
Balanced round8 r =
    (r.requests ≡ r.cache_hits + r.self_hosted_requests + provider_requests r)
    × ((rest : ℕ) × (r.cost_usd ≡ r.self_hosted_cost_usd + rest)
        × (provider_cost_usd round8 r ≡ round8 rest))

abbrev Within : UsageRow → Type 0
Within r =
    (r.cache_hits + r.self_hosted_requests ≤ r.requests) × (r.self_hosted_cost_usd ≤ r.cost_usd)

spend-Within : (u : Spending) (r : UsageRow) → Within r → Within (spend u r)
unfolding spend
spend-Within u r h = ground arith

tally-Within : (k : UsageKey) (xs : List Entry) (r : UsageRow) → Within r → Within (tally k xs r)
unfolding tally
tally-Within k [] r h = h
tally-Within k (x ∷ xs) r h = elim (Bool-cases (same_key x.key k)) [
  | inl e ↦ rw (e, tally) (tally-Within k xs _ (spend-Within x.spending r h))
  | inr e ↦ rw (e, tally) (tally-Within k xs r h)
]

module _ (p : MeterServices) (retention : ℕ) where
  open p use {State, today}

  -- Calls of `record`, one after the other; false once one raises.
  unfoldable pub record_all : List (String × Spending) → State → Bool × State
  record_all [] s = (true, s)
  record_all ((key_id, u) ∷ calls) s =
      let (done, s') = record_usage p retention key_id u s in
      let (rest, s'') = record_all calls s' in (done && rest, s'')

  -- The ledger of the calls, each on the day that it saw.
  unfoldable pub ledger : List (String × Spending) → State → List Entry
  ledger [] s = []
  ledger ((key_id, u) ∷ calls) s =
      record { key = record { key_id = key_id; day = (today s).0 }; spending = u }
      ∷ ledger calls (record_usage p retention key_id u s).1

  module _ (c : Counters p) where
    open c use {row, kept_today, executed}

    record_usage-row :
        (k : UsageKey) (key_id : String) (u : Spending) (s : State)
        → (record_usage p retention key_id u s).0 ≡ true
        → row k (record_usage p retention key_id u s).1 ≡ (
            if same_key (record { key_id = key_id; day = (today s).0 }) k
            then spend u (row k s)
            else row k s)
    unfolding record_usage
    record_usage-row k key_id u s h =
        executed k _ _ h
        ∙ apply-usage_commands k _ u retention _
        ∙ ap
            (λ r.
              if same_key (record { key_id = key_id; day = (today s).0 }) k then spend u r else r)
            (kept_today k s)

    -- The row of every key and day is the tally of the ledger on top of what it was before: each
    -- spending is added to the row of its key on its day, a cache hit as a hit and what it saved,
    -- any other with its tokens and cost, and to no other row, if Redis executes every pipeline.
    pub row-tally :
        (k : UsageKey) (calls : List (String × Spending)) (s : State)
        → (record_all calls s).0 ≡ true
        → row k (record_all calls s).1 ≡ tally k (ledger calls s) (row k s)
    unfolding record_all ledger tally
    row-tally k [] s h = refl
    row-tally k ((key_id, u) ∷ calls) s h =
        let one : (record_usage p retention key_id u s).0 ≡ true = ground (arith, h) in
        let rest : (record_all calls (record_usage p retention key_id u s).1).0 ≡ true =
          ground (arith, h) in
        row-tally k calls _ rest ∙ ap (tally k (ledger calls _)) (record_usage-row k key_id u s one)

    -- In the row of a key and day that nothing was recorded for before, after any calls, the
    -- requests are exactly the cache hits, the self-hosted requests and the provider requests, and
    -- the cost is the self-hosted cost and one more amount, which is the provider cost once it is rounded:
    -- nothing is cut off at zero.
    pub row-Balanced :
        (round8 : ℕ → ℕ) (k : UsageKey) (calls : List (String × Spending)) (s : State)
        → (record_all calls s).0 ≡ true
        → row k s ≡ empty_row
        → Balanced round8 (row k (record_all calls s).1)
    row-Balanced round8 k calls s h e =
        let r = tally k (ledger calls s) empty_row in
        let within = tally-Within k (ledger calls s) empty_row (omega arith, omega arith) in
        rw (row-tally k calls s h, e)
          (
            omega (arith, within.0),
            (r.cost_usd - r.self_hosted_cost_usd, omega (arith, within.1), refl),
          )
