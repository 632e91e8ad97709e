-- ===== src/Cluster/Degraded.antt =====
-- The breakers of app/gateway/breaker_cluster.py against the local ones, with Redis and without.
use llm_gateway_rag.Common.{
  String, ◌≡◌, ◌≢◌, refl, ◌∙◌, true, Option, none, some, List, [], ◌∷◌, arith, All, Option-cases,
  inl, inr, str_eq_iff,
}
use llm_gateway_rag.Common.Int.{ℤ}
use llm_gateway_rag.Common.Dict.{Dict, lookup, insert, lookup-insert}
use llm_gateway_rag.Breaker
use llm_gateway_rag.Breaker.{BreakerState, CircuitBreaker, read_state}
use llm_gateway_rag.Environment.{Environment, Key, Command, Reply, whole_seconds}
use llm_gateway_rag.Cluster.{
  ClusterBreakers, adopt_one, adopt_all, adopt_replies, reads, sync, record_failure,
}

record_failure-true :
    (b : CircuitBreaker) (now later : ℤ)
    → (Breaker.record_failure b now later).1 ≡ true
    → (Breaker.record_failure b now later).0.state ≡ BreakerState.opened
unfolding Breaker.record_failure
record_failure-true b now later h = ground arith

module _ (e : Environment) where
  open e use {State, clock, execute}

  -- Redis cannot be reached: every pipeline raises.
  abbrev pub Unreachable : Type 0
  Unreachable = (cs : List Command) (s : State) → (execute cs s).0 ≡ none

  -- Without Redis a sync leaves every local breaker as it is.
  pub sync_unreachable :
      Unreachable
      → (c : ClusterBreakers) (bs : Dict CircuitBreaker) (names : List String) (s : State)
      → (sync e c bs names s).0.1 ≡ bs
  unfolding sync
  sync_unreachable down c bs names s = ground (arith, down (reads names) (clock s).1)

  -- Without Redis a failure is counted exactly as the local breaker alone counts it, by the same
  -- two clock readings, with the same report whether the circuit opened.
  pub record_failure_unreachable :
      Unreachable
      → (c : ClusterBreakers) (name : String) (b : CircuitBreaker) (s : State)
      → let (now, s') = clock s in
        let (later, _) = clock s' in
        (record_failure e c name b s).0 ≡ Breaker.record_failure b now later
  unfolding record_failure
  record_failure_unreachable down c name b s = ground (
    arith,
    down
        (Command.incr (Key.fails name)
          ∷ Command.expire (Key.fails name) (whole_seconds c.failure_window)
          ∷ [])
        (clock (clock s).1).1,
  )

  -- Whatever Redis answers, a failure that is reported to have opened the circuit has left the local
  -- breaker open.
  pub record_failure-opened :
      (c : ClusterBreakers) (name : String) (b : CircuitBreaker) (s : State)
      → (record_failure e c name b s).0.1 ≡ true
      → (record_failure e c name b s).0.0.state ≡ BreakerState.opened
  unfolding record_failure Breaker.adopt
  record_failure-opened c name b s h =
      ground (arith, record_failure-true b (clock s).0 (clock (clock s).1).0)

  adopt_all_other :
      (c : ClusterBreakers) (k : String) (ns : List String) (rs : List Reply)
      (bs : Dict CircuitBreaker) (s : State)
      → All (λ n. n ≢ k) ns
      → lookup k (adopt_all e c ns rs bs s).0 ≡ lookup k bs
  unfolding adopt_all
  adopt_all_other c k [] rs bs s h = refl
  adopt_all_other c k (n ∷ ns) [] bs s h = refl
  adopt_all_other c k (n ∷ ns) (o ∷ []) bs s h = refl
  adopt_all_other c k (n ∷ ns) (o ∷ f ∷ rs) bs s h = elim (Option-cases (lookup n bs)) [
    | inl p ↦ rw (p, adopt_all) (adopt_all_other c k ns rs bs s h.1)
    | inr (b, p) ↦
        let (b', s') = adopt_one e c n o f b s in
        rw (p, adopt_all)
          (adopt_all_other c k ns rs (insert n b' bs) s' h.1
            ∙ ground (arith, lookup-insert n k b' bs, str_eq_iff n k))
  ]

  adopt_replies_other :
      (c : ClusterBreakers) (k : String) (names : List String) (r : Option (List Reply))
      (bs : Dict CircuitBreaker) (s : State)
      → All (λ n. n ≢ k) names
      → lookup k (adopt_replies e c names r bs s).0 ≡ lookup k bs
  unfolding adopt_replies
  adopt_replies_other c k names none bs s h = refl
  adopt_replies_other c k names (some rs) bs s h = adopt_all_other c k names rs bs s h

  -- A sync changes no breaker but those of the deployments that it was asked about.
  pub sync_other :
      (c : ClusterBreakers) (k : String) (bs : Dict CircuitBreaker) (names : List String)
      (s : State)
      → All (λ n. n ≢ k) names
      → lookup k (sync e c bs names s).0.1 ≡ lookup k bs
  unfolding sync
  sync_other c k bs names s h =
      let s' = (clock s).1 in
      let (r, s'') = execute (reads names) s' in
      ground (arith, adopt_replies_other c k names r bs s'' h)
