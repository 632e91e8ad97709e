-- ===== src/Cluster/Probing.antt =====
-- The shared open key and the one probe after a cooldown.
use llm_gateway_rag.Common.{
  ℕ, String, ◌≡◌, ◌⊎◌, inl, inr, refl, Bool, true, false, some, List, [], ◌∷◌, arith, Bool-cases,
  Option-cases, str_eq, str_eq_iff,
}
use llm_gateway_rag.Common.Int.{ℤ}
use llm_gateway_rag.Common.Dict.{Dict, lookup, insert, lookup-insert}
use llm_gateway_rag.Common.Action.{Action, pure, ◌>>=◌}
use llm_gateway_rag.Breaker.{BreakerState, CircuitBreaker, adopt}
use llm_gateway_rag.Environment.{Environment, Key, Command, Reply, whole_seconds}
use llm_gateway_rag.Cluster.{
  ClusterBreakers, within_refresh, is_set, reads, adopt_one, adopt_all, claim_probe, adopt_replies,
  sync,
}

-- Every reply about deployment `k` shows its open key.
abbrev pub AllFlagged : String → List String → List Reply → Type 0
AllFlagged k (n ∷ ns) (o ∷ f ∷ rs) = (n ≡ k → is_set o ≡ true) × AllFlagged k ns rs
AllFlagged k _ _ = Unit

abbrev pub Occurs : String → List String → List Reply → Type 0
Occurs k (n ∷ ns) (o ∷ f ∷ rs) = (n ≡ k) ⊎ Occurs k ns rs
Occurs k _ _ = ⊥

abbrev pub OpenedAt : String → Dict CircuitBreaker → Type 0
OpenedAt k bs = (b : CircuitBreaker) × (lookup k bs ≡ some b) × (b.state ≡ BreakerState.opened)

module _ (e : Environment) where
  open e use {State, clock, execute}

  adopt_one-opened :
      (c : ClusterBreakers) (name : String) (o f : Reply) (b : CircuitBreaker) (s : State)
      → is_set o ≡ true
      → (adopt_one e c name o f b s).0.state ≡ BreakerState.opened
  unfolding adopt_one adopt
  adopt_one-opened c name o f b s h = ground arith

  adopt_all_keeps_open :
      (c : ClusterBreakers) (k : String) (ns : List String) (rs : List Reply)
      (bs : Dict CircuitBreaker) (s : State)
      → AllFlagged k ns rs
      → OpenedAt k bs
      → OpenedAt k (adopt_all e c ns rs bs s).0
  unfolding adopt_all
  adopt_all_keeps_open c k [] rs bs s h p = p
  adopt_all_keeps_open c k (n ∷ ns) [] bs s h p = p
  adopt_all_keeps_open c k (n ∷ ns) (o ∷ []) bs s h p = p
  adopt_all_keeps_open c k (n ∷ ns) (o ∷ f ∷ rs) bs s h p = elim (Option-cases (lookup n bs)) [
    | inl q ↦ rw (q, adopt_all) (adopt_all_keeps_open c k ns rs bs s h.1 p)
    | inr (b, q) ↦
        let (b', s') = adopt_one e c n o f b s in
        let grown = lookup-insert n k b' bs in
        let still : OpenedAt k (insert n b' bs) = elim (Bool-cases (str_eq n k)) [
          | inl same ↦
              let n≡k : n ≡ k = (str_eq_iff n k).0 same in
              (b', rw (grown, same), adopt_one-opened c n o f b s (h.0 n≡k))
          | inr other ↦ (p.0, rw (grown, other) p.1, p.2)
        ] in
        rw (q, adopt_all) (adopt_all_keeps_open c k ns rs (insert n b' bs) s' h.1 still)
  ]

  adopt_all_opens :
      (c : ClusterBreakers) (k : String) (ns : List String) (rs : List Reply)
      (bs : Dict CircuitBreaker) (s : State) (b : CircuitBreaker)
      → AllFlagged k ns rs
      → Occurs k ns rs
      → lookup k bs ≡ some b
      → OpenedAt k (adopt_all e c ns rs bs s).0
  unfolding adopt_all
  adopt_all_opens c k [] rs bs s b h o p = absurd o
  adopt_all_opens c k (n ∷ ns) [] bs s b h o p = absurd o
  adopt_all_opens c k (n ∷ ns) (_ ∷ []) bs s b h o p = absurd o
  adopt_all_opens c k (n ∷ ns) (o ∷ f ∷ rs) bs s b h i p = elim (Option-cases (lookup n bs)) [
    | inl q ↦ elim i [
      | inl same ↦ absurd (ground (arith, q))
      | inr later ↦ rw (q, adopt_all) (adopt_all_opens c k ns rs bs s b h.1 later p)
    ]
    | inr (b₀, q) ↦
        let (b', s') = adopt_one e c n o f b₀ s in
        let grown = lookup-insert n k b' bs in
        rw (q, adopt_all)
          (elim (Bool-cases (str_eq n k)) [
            | inl same ↦ adopt_all_keeps_open c k ns rs (insert n b' bs) s' h.1 (
              b',
              rw (grown, same),
              adopt_one-opened c n o f b₀ s (h.0 ((str_eq_iff n k).0 same)),
            )
            | inr other ↦ elim i [
              | inl same ↦ absurd (ground (arith, other, str_eq_iff n k))
              | inr later ↦
                  adopt_all_opens c k ns rs (insert n b' bs) s' b h.1 later (rw (grown, other) p)
            ]
          ])
  ]

  -- A sync that reads Redis leaves the breaker of a deployment open, if the deployment is among
  -- those asked about and every reply about it shows the shared open key.
  pub sync_opens :
      (c : ClusterBreakers) (k : String) (bs : Dict CircuitBreaker) (names : List String)
      (s : State) {rs : List Reply} {b : CircuitBreaker}
      → within_refresh c (clock s).0 ≡ false
      → (execute (reads names) (clock s).1).0 ≡ some rs
      → AllFlagged k names rs
      → Occurs k names rs
      → lookup k bs ≡ some b
      → OpenedAt k (sync e c bs names s).0.1
  unfolding sync adopt_replies
  sync_opens c k bs names s {rs} {b} due read h i p =
      rw (due, sync)
        (rw (read, adopt_replies)
          (adopt_all_opens c k names rs bs (execute (reads names) (clock s).1).1 b h i p))

  -- What the probe key is relied on for: `SET NX` succeeds where the key is not held, and takes it;
  -- it answers nil where the key is held, and leaves it; reading the clock does not end the hold.
  pub record NxLaws (held : Key → State → Bool) : Type 0 where
    pub free :
        (k : Key) (n : ℕ) (s : State)
        → held k s ≡ false
        → let (r, s') = execute (Command.set k n true ∷ []) s in
          (r ≡ some (Reply.value 1 ∷ [])) × (held k s' ≡ true)
    pub taken :
        (k : Key) (n : ℕ) (s : State)
        → held k s ≡ true
        → let (r, s') = execute (Command.set k n true ∷ []) s in
          (r ≡ some (Reply.nil ∷ [])) × (held k s' ≡ true)
    pub clock_keeps : (k : Key) (s : State) → held k (clock s).1 ≡ held k s

  -- The replicas ask for the probe of one deployment, one after the other.
  unfoldable pub claim_all :
      ClusterBreakers → String → List CircuitBreaker → Action State (List CircuitBreaker)
  claim_all c name [] = pure []
  claim_all c name (b ∷ bs) = do
    b' ← claim_probe e c name b
    bs' ← claim_all c name bs
    pure (b' ∷ bs')

  module _ (held : Key → State → Bool) (laws : NxLaws held) where
    claim_probe_taken :
        (c : ClusterBreakers) (name : String) (b : CircuitBreaker) (s : State)
        → held (Key.probe name) s ≡ true
        → let (b', s') = claim_probe e c name b s in (b' ≡ b) × (held (Key.probe name) s' ≡ true)
    unfolding claim_probe
    claim_probe_taken c name b s h =
        ground (arith, laws.taken (Key.probe name) (whole_seconds c.probe_time) s h)

    claim_probe_free :
        (c : ClusterBreakers) (name : String) (b : CircuitBreaker) (s : State)
        → held (Key.probe name) s ≡ false
        → let (b', s') = claim_probe e c name b s in
          (t : ℤ) × (b' ≡ adopt b BreakerState.half_open 0 t) × (held (Key.probe name) s' ≡ true)
    unfolding claim_probe
    claim_probe_free c name b s h =
        let n = whole_seconds c.probe_time in
        let s' = (execute (Command.set (Key.probe name) n true ∷ []) s).1 in
        let law = laws.free (Key.probe name) n s h in
        let keeps = laws.clock_keeps (Key.probe name) s' in
        ((clock s').0, ground (arith, law), ground (arith, law, keeps))

    claim_all_taken :
        (c : ClusterBreakers) (name : String) (bs : List CircuitBreaker) (s : State)
        → held (Key.probe name) s ≡ true
        → (claim_all c name bs s).0 ≡ bs
    unfolding claim_all
    claim_all_taken c name [] s h = refl
    claim_all_taken c name (b ∷ bs) s h =
        let (same, still) = claim_probe_taken c name b s h in
        cc (same, claim_all_taken c name bs (claim_probe e c name b s).1 still)

    -- After a cooldown one replica probes: of any number of replicas that ask for a free probe key
    -- in turn, the first moves its breaker to half-open and the others keep theirs as they were.
    pub claim_all_one :
        (c : ClusterBreakers) (name : String) (b : CircuitBreaker) (bs : List CircuitBreaker)
        (s : State)
        → held (Key.probe name) s ≡ false
        → (t : ℤ) × ((claim_all c name (b ∷ bs) s).0 ≡ adopt b BreakerState.half_open 0 t ∷ bs)
    unfolding claim_all
    claim_all_one c name b bs s h =
        let (t, first, still) = claim_probe_free c name b s h in
        (t, cc (first, claim_all_taken c name bs (claim_probe e c name b s).1 still))
