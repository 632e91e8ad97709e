-- ===== src/Cluster.antt =====
-- Circuit state shared by the replicas, app/gateway/breaker_cluster.py. The mapping of breakers is
-- the router's own dict: what happens to a breaker object is a write to its entry. A pipeline that
-- answers with another number of replies than commands ends the loop over the names.
pub mod Degraded
pub mod Probing
use llm_gateway_rag.Common.{
  ℕ, ◌+◌, ◌≡◌, String, Bool, true, false, Option, none, some, List, [], ◌∷◌, leb, max,
  if◌then◌else◌,
}
use llm_gateway_rag.Common.Int.{ℤ, pos, negsuc, ◌-ℤ◌, ltb_ℤ, pos_part}
use llm_gateway_rag.Common.Dict.{Dict, lookup, insert}
use llm_gateway_rag.Common.Action.{Action, pure, ◌>>=◌, ◌>>◌}
use llm_gateway_rag.Breaker
use llm_gateway_rag.Breaker.{BreakerState, CircuitBreaker, is_open, read_state, adopt}
use llm_gateway_rag.Environment.{Environment, Key, Command, Reply, whole_seconds}

pub record ClusterBreakers : Type 0 where
  pub failure_threshold : ℕ
  pub cooldown : ℤ
  pub failure_window : ℤ
  pub refresh : ℤ
  pub probe_time : ℤ
  pub synced_at : Option ℤ  -- `none` is the initial `float("-inf")`

-- `now - self._synced_at < self._refresh`
abbrev pub within_refresh : ClusterBreakers → ℤ → Bool
within_refresh c now = elim c.synced_at [ none ↦ false | some t ↦ ltb_ℤ (now -ℤ t) c.refresh ]

abbrev pub reads : List String → List Command
reads [] = []
reads (n ∷ ns) = Command.get (Key.opened n) ∷ Command.get (Key.fails n) ∷ reads ns

-- a reply as a Python condition
abbrev pub is_set : Reply → Bool
is_set Reply.nil = false
is_set _ = true

-- `int(reply)`, for a reply that is a number
abbrev pub to_count : Reply → ℕ
to_count (Reply.value n) = n
to_count (Reply.integer i) = pos_part i
to_count _ = 0

-- the result of `SET key value NX`, where an exception counts as won
abbrev pub won : Option (List Reply) → Bool
won none = true
won (some (r ∷ _)) = is_set r
won (some []) = false

module _ (e : Environment) where
  open e use {State, clock, execute}

  unfoldable pub adopt_open : ClusterBreakers → CircuitBreaker → Action State CircuitBreaker
  adopt_open c b = do
    t ← clock
    let b' = read_state b t
    t' ← clock
    pure (adopt b' BreakerState.opened c.failure_threshold t')

  adopt_if_won : Option (List Reply) → CircuitBreaker → Action State CircuitBreaker
  adopt_if_won r b =
      if won r then (do t ← clock; pure (adopt b BreakerState.half_open 0 t)) else pure b

  unfoldable pub claim_probe :
      ClusterBreakers → String → CircuitBreaker → Action State CircuitBreaker
  unfolding adopt_if_won
  claim_probe c name b = do
    r ← execute (Command.set (Key.probe name) (whole_seconds c.probe_time) true ∷ [])
    adopt_if_won r b

  adopt_count : Reply → CircuitBreaker → Action State CircuitBreaker
  adopt_count fails b =
      if is_set fails
      then (do
        t ← clock
        let b' = read_state b t
        t' ← clock
        pure (adopt b' b'.state (to_count fails) t'))
      else pure b

  -- the body of `sync`'s loop for one breaker
  unfoldable pub adopt_one :
      ClusterBreakers → String → Reply → Reply → CircuitBreaker → Action State CircuitBreaker
  unfolding adopt_open claim_probe adopt_count
  adopt_one c name open_flag fails b = if is_set open_flag then adopt_open c b else (do
    t ← clock
    let b' = read_state b t
    if is_open b'.state then claim_probe c name b' else adopt_count fails b')

  -- `for name, open_flag, fails in zip(names, results[::2], results[1::2])`
  unfoldable pub adopt_all :
      ClusterBreakers
      → List String
      → List Reply
      → Dict CircuitBreaker
      → Action State (Dict CircuitBreaker)
  unfolding adopt_one
  adopt_all c (n ∷ ns) (o ∷ f ∷ rs) bs = elim (lookup n bs) [
    | none ↦ adopt_all c ns rs bs
    | some b ↦ (do b' ← adopt_one c n o f b; adopt_all c ns rs (insert n b' bs))
  ]
  adopt_all c _ _ bs = pure bs

  adopt_replies :
      ClusterBreakers
      → List String
      → Option (List Reply)
      → Dict CircuitBreaker
      → Action State (Dict CircuitBreaker)
  unfolding adopt_all
  adopt_replies c names none bs = pure bs
  adopt_replies c names (some replies) bs = adopt_all c names replies bs

  unfoldable pub sync :
      ClusterBreakers
      → Dict CircuitBreaker
      → List String
      → Action State (ClusterBreakers × Dict CircuitBreaker)
  unfolding adopt_replies
  sync c bs names = do
    now ← clock
    if within_refresh c now then pure (c, bs) else (do
      results ← execute (reads names)
      bs' ← adopt_replies c names results bs
      pure (record c { synced_at = some now }, bs'))

  -- `_open`; an exception is logged and dropped
  unfoldable pub publish_open : ClusterBreakers → String → Action State (Option (List Reply))
  publish_open c name = execute (
      Command.set (Key.opened name) (whole_seconds c.cooldown) false
      ∷ Command.delete (Key.fails name ∷ Key.probe name ∷ [])
      ∷ [])

  -- what `record_failure` makes of the pooled count
  pooled :
      ClusterBreakers
      → String
      → CircuitBreaker
      → Option (List Reply)
      → Action State (CircuitBreaker × Bool)
  unfolding publish_open
  pooled c name b (some (count ∷ _)) =
      if leb c.failure_threshold (to_count count)
      then (do
        publish_open c name
        t ← clock
        pure (adopt b BreakerState.opened (to_count count) t, true))
      else pure (b, false)
  pooled c name b _ = pure (b, false)

  unfoldable pub record_failure :
      ClusterBreakers → String → CircuitBreaker → Action State (CircuitBreaker × Bool)
  unfolding pooled
  record_failure c name b = do
    now ← clock
    later ← clock
    let (b', opened) = Breaker.record_failure b now later
    if opened then (do publish_open c name; pure (b', true)) else (do
      r ← execute (
          Command.incr (Key.fails name)
          ∷ Command.expire (Key.fails name) (whole_seconds c.failure_window)
          ∷ [])
      pooled c name b' r)

  unfoldable pub record_success :
      ClusterBreakers → String → CircuitBreaker → Action State CircuitBreaker
  record_success c name b = do
    execute (Command.delete (Key.fails name ∷ Key.opened name ∷ Key.probe name ∷ []) ∷ [])
    pure (Breaker.record_success b)

-- the admin view of one circuit
pub record SharedState : Type 0 where
  pub opened : Bool
  pub cooldown_remaining_s : ℕ
  pub pooled_failures : ℕ

abbrev pub ttls : List String → List Command
ttls [] = []
ttls (n ∷ ns) = Command.ttl (Key.opened n) ∷ Command.get (Key.fails n) ∷ ttls ns

unfoldable pub shared : List String → List Reply → Dict SharedState → Dict SharedState
shared (n ∷ ns) (t ∷ f ∷ rs) d = shared ns rs (
    insert n
      (record {
        opened = leb 1 (to_count t);
        cooldown_remaining_s = to_count t;
        pooled_failures = to_count f;
      })
      d)
shared _ _ d = d

module _ (e : Environment) where
  open e use {State, execute}

  unfoldable pub states : List String → Action State (Dict SharedState)
  unfolding shared
  states names = do
    r ← execute (ttls names)
    pure (elim r [ none ↦ [] | some replies ↦ shared names replies [] ])
