-- ===== src/Chat/Complete/Accounts.antt =====
-- What `ChatService.complete` of app/gateway/service.py meters and reports.
use llm_gateway_rag.Common.{
  ◌≡◌, refl, sym, ◌⊎◌, inl, inr, String, Bool, true, false, Option, none, some, List, [], ◌∷◌, ◌++◌,
  Bool-cases, if◌then◌else◌, is_some,
}
use mathlib.Core.Path.{subst}
use llm_gateway_rag.Common.Dict.{lookup}
use llm_gateway_rag.Routes.{RoutingConfig}
use llm_gateway_rag.Schemas.{ChatRequest}
use llm_gateway_rag.Environment.{Environment}
use llm_gateway_rag.Router.Complete.{Completion, RoutedResult, complete as complete_routed}
use llm_gateway_rag.Rollout.{Variant}
use llm_gateway_rag.Metering.{Spending}
use llm_gateway_rag.SemanticCache.{CachedCompletion, CacheHit}
use llm_gateway_rag.Keys.{Principal}
use llm_gateway_rag.Chat.{
  ChatResponse, ChatError, Answer, Collaborators, proceed, pure, ◌>>◌, saved, found, lookup_cached,
  World, routed, select_table, record_variant, uses_cache, hit_for, store_cached, usage_out,
}
use llm_gateway_rag.Chat.Books.{
  Books, told_of, Adds, Adds-none, Adds-trans, hit_for-Adds, select_table-Adds, record_variant-Adds,
  record_variant-answered, entries, meter-Adds, store_cached-Adds, proceed-answered,
  select_table-answered,
}
use llm_gateway_rag.Chat.Complete.{
  meter_and_answer, after_routing, answer_with, complete_on, report, complete_by, complete,
  completion_of, spent, response_of_hit, response_of_result, with_variant,
}

-- The spending that a response accounts for: nothing but a saving, for a cached one.
abbrev pub Pays : ChatResponse → Spending → Type 0
Pays response u =
    (u.cached ≡ response.nexusgate.cached)
    × (u.cost_usd ≡ response.nexusgate.cost_usd)
    × ((response.nexusgate.cached ≡ true)
        ⊎ (response.usage ≡ usage_out u.prompt_tokens u.completion_tokens))

module _ (e : Environment) (c : Collaborators) (b : Books c) where
  -- One spending is metered for a response, and none for an error; a rollout is not told.
  abbrev pub Metered : String → c.State → Answer ChatResponse × World e c → Type 0
  Metered key_id s (Answer.answered response, w) =
      (u : Spending) × (cs : List CachedCompletion) × Pays response u
      × Adds e c b ((key_id, u) ∷ []) [] cs s w.1
  Metered key_id s (Answer.failed err, w) = (cs : List CachedCompletion) × Adds e c b [] [] cs s w.1

  Metered-after :
      (key_id : String) (cs : List CachedCompletion) (s s' : c.State)
      (run : Answer ChatResponse × World e c)
      → Adds e c b [] [] cs s s'
      → Metered key_id s' run
      → Metered key_id s run
  Metered-after key_id cs s s' (Answer.answered response, w) h (u, cs', p, h') =
      (u, cs ++ cs', p, Adds-trans e c b _ _ _ _ cs cs' s s' w.1 h h')
  Metered-after key_id cs s s' (Answer.failed err, w) h (cs', h') =
      (cs ++ cs', Adds-trans e c b _ _ _ _ cs cs' s s' w.1 h h')

  answered-Metered :
      (key_id : String) (u : Spending) (response : ChatResponse) (a : Answer (Unit {0}))
      (s : c.State) (w : World e c)
      → Pays response u
      → Adds e c b (entries e c b a key_id u) [] [] s w.1
      → Metered key_id s (proceed (λ x. pure response) a w)
  answered-Metered key_id u response (Answer.answered x) s w p h = (u, [], p, h)
  answered-Metered key_id u response (Answer.failed err) s w p h = ([], h)

  meter_and_answer-Metered :
      (principal : Principal) (u : Spending) (response : ChatResponse) (w : World e c)
      → Pays response u
      → Metered principal.key_id w.1 (meter_and_answer e c principal u response w)
  unfolding meter_and_answer
  meter_and_answer-Metered principal u response w p =
      answered-Metered principal.key_id u response _ w.1 _ p (meter-Adds e c b principal.key_id u w)

  -- the cache fill, where the request uses the cache
  abbrev fill : Principal → ChatRequest → RoutedResult → World e c → Answer (Unit {0}) × World e c
  fill principal request result =
      if uses_cache e c request
      then store_cached e c principal request (completion_of result)
      else pure tt

  fill-Adds :
      (principal : Principal) (request : ChatRequest) (result : RoutedResult) (w : World e c)
      → (cs : List CachedCompletion) × ((fill principal request result w).0 ≡ Answer.answered tt)
        × Adds e c b [] [] cs w.1 (fill principal request result w).1.1
  unfolding store_cached
  fill-Adds principal request result w = elim (Bool-cases (uses_cache e c request)) [
    | inl h ↦ rw h (
      completion_of result ∷ [],
      refl,
      store_cached-Adds e c b principal request (completion_of result) w,
    )
    | inr h ↦ rw h ([], refl, Adds-none e c b w.1 w.1 (refl, refl, refl))
  ]

  after_routing-Metered :
      (principal : Principal) (request : ChatRequest) (result : Completion) (w : World e c)
      → Metered principal.key_id w.1 (after_routing e c principal request result w)
  unfolding after_routing
  after_routing-Metered principal request (Completion.completed result) w =
      let (cs, h, added) = fill-Adds principal request result w in
      let w' = (fill principal request result w).1 in
      subst (Metered principal.key_id w.1)
        (sym (
          proceed-answered
            (λ u. meter_and_answer e c principal (spent result) (response_of_result result))
            (fill principal request result w).0 tt w' h))
        (Metered-after principal.key_id cs w.1 w'.1 _ added (
          meter_and_answer-Metered principal (spent result) (response_of_result result) w'
            (refl, refl, inr refl)))
  after_routing-Metered principal request (Completion.unknown_model name) w =
      ([], Adds-none e c b w.1 w.1 (refl, refl, refl))
  after_routing-Metered principal request (Completion.all_failed attempts) w =
      ([], Adds-none e c b w.1 w.1 (refl, refl, refl))
  after_routing-Metered principal request (Completion.client_error f attempts) w =
      ([], Adds-none e c b w.1 w.1 (refl, refl, refl))

  answer_with-Metered :
      (principal : Principal) (request : ChatRequest) (config : RoutingConfig)
      (hit : Option CacheHit) (w : World e c)
      → Metered principal.key_id w.1 (answer_with e c principal request config hit w)
  unfolding answer_with
  answer_with-Metered principal request config (some hit) w =
      meter_and_answer-Metered principal (saved hit.completion) (response_of_hit hit) w
        (refl, refl, inl refl)
  answer_with-Metered principal request config none w =
      after_routing-Metered principal request _
        (routed e c (complete_routed e request (some config)) w).1

  hit_for-answered :
      (principal : Principal) (request : ChatRequest) (w : World e c)
      → (hit : Option CacheHit) × ((hit_for e c principal request w).0 ≡ Answer.answered hit)
  unfolding hit_for lookup_cached
  hit_for-answered principal request w = elim (Bool-cases (uses_cache e c request)) [
    | inl h ↦ rw h (found (c.lookup principal.tenant_id request w.1).0, refl)
    | inr h ↦ rw h (none, refl)
  ]

  complete_on-Metered :
      (principal : Principal) (request : ChatRequest) (config : RoutingConfig) (w : World e c)
      → Metered principal.key_id w.1 (complete_on e c principal request config w)
  unfolding complete_on
  complete_on-Metered principal request config w =
      let (hit, h) = hit_for-answered principal request w in
      let w' = (hit_for e c principal request w).1 in
      subst (Metered principal.key_id w.1)
        (sym (proceed-answered (answer_with e c principal request config) _ hit w' h))
        (Metered-after principal.key_id [] w.1 w'.1 _ (hit_for-Adds e c b principal request w)
          (answer_with-Metered principal request config hit w'))

  -- One spending is metered for a response, which a rollout hears of as a success. An error meters
  -- nothing, and a rollout hears of it as a failure unless the table lacks the model.
  abbrev pub Accounted :
      String → Option Variant → Bool → c.State → Answer ChatResponse × World e c → Type 0
  Accounted key_id variant known s (Answer.answered response, w) =
      (known ≡ true)
      × (u : Spending) × (cs : List CachedCompletion) × Pays response u
      × Adds e c b ((key_id, u) ∷ []) (told_of c.has_rollout variant true) cs s w.1
  Accounted key_id variant known s (Answer.failed err, w) =
      (cs : List CachedCompletion) × Adds e c b []
        (if known then told_of c.has_rollout variant false else []) cs s w.1

  told_failure :
      (key_id : String) (cs : List CachedCompletion) (err : ChatError) (variant : Option Variant)
      (s : c.State) (a : Answer (Unit {0})) (w : World e c)
      → Adds e c b [] (told_of c.has_rollout variant false) cs s w.1
      → let run = proceed {B = ChatResponse} (λ u s'. (Answer.failed err, s')) a w in
        Accounted key_id variant true s (
          proceed
            (λ response. record_variant e c variant true >> pure (with_variant variant response))
            run.0
            run.1)
  told_failure key_id cs err variant s (Answer.answered x) w h = (cs, h)
  told_failure key_id cs err variant s (Answer.failed err') w h = (cs, h)

  with_variant-Pays :
      (variant : Option Variant) (response : ChatResponse) (u : Spending)
      → Pays response u
      → Pays (with_variant variant response) u
  with_variant-Pays none response u h = h
  with_variant-Pays (some v) response u h = h

  report-Accounted :
      (key_id : String) (variant : Option Variant) (s : c.State)
      (run : Answer ChatResponse × World e c)
      → Metered key_id s run
      → Accounted key_id variant true s (report e c variant run.0 run.1)
  unfolding report
  report-Accounted key_id variant s (Answer.failed err, w) (cs, h) =
      told_failure key_id (cs ++ []) err variant s _ _ (
        Adds-trans e c b [] [] [] (told_of c.has_rollout variant false) cs [] s w.1 _ h
          (record_variant-Adds e c b variant false w))
  report-Accounted key_id variant s (Answer.answered response, w) (u, cs, p, h) =
      subst (Accounted key_id variant true s)
        (sym (
          proceed-answered (λ x. pure (with_variant variant response))
            (record_variant e c variant true w).0 tt (record_variant e c variant true w).1
            (record_variant-answered e c b variant w)))
        (
          refl,
          u,
          cs ++ [],
          with_variant-Pays variant response u p,
          Adds-trans e c b ((key_id, u) ∷ []) [] [] (told_of c.has_rollout variant true) cs [] s w.1
              _ h (record_variant-Adds e c b variant true w),
        )

  complete_by-Accounted :
      (principal : Principal) (request : ChatRequest) (table : RoutingConfig × Option Variant)
      (w : World e c)
      → Accounted principal.key_id table.1
          (is_some (lookup request.model table.0))
          w.1
          (complete_by e c principal request table w)
  unfolding complete_by
  complete_by-Accounted principal request (config, variant) w =
      elim (Bool-cases (is_some (lookup request.model config))) [
        | inl h ↦ rw h (
            report-Accounted principal.key_id variant w.1 _
              (complete_on-Metered principal request config w))
        | inr h ↦ rw h ([], Adds-none e c b w.1 w.1 (refl, refl, refl))
      ]

  Accounted-after :
      (key_id : String) (variant : Option Variant) (known : Bool) (s s' : c.State)
      (run : Answer ChatResponse × World e c)
      → Adds e c b [] [] [] s s'
      → Accounted key_id variant known s' run
      → Accounted key_id variant known s run
  Accounted-after key_id variant known s s' (Answer.answered response, w) h (k, u, cs, p, h') =
      (k, u, cs, p, Adds-trans e c b _ _ _ _ [] cs s s' w.1 h h')
  Accounted-after key_id variant known s s' (Answer.failed err, w) h (cs, h') =
      (cs, Adds-trans e c b _ _ _ _ [] cs s s' w.1 h h')

  -- With collaborators that keep these books, a completion selects a route table. If it answers, the
  -- model is in that table, exactly one spending is metered for the caller's key, which agrees with the
  -- response's cost, usage and cached flag, and a rollout is told once of a success of the variant. If
  -- it fails, nothing is metered, and a rollout is told once of a failure unless the model is not in
  -- the table.
  pub complete-Accounted :
      (principal : Principal) (request : ChatRequest) (w : World e c)
      → (table : RoutingConfig × Option Variant) × ((select_table e c w).0 ≡ Answer.answered table)
        × Accounted principal.key_id table.1
            (is_some (lookup request.model table.0))
            w.1
            (complete e c principal request w)
  unfolding complete
  complete-Accounted principal request w =
      let (table, h) = select_table-answered e c w in
      let w' = (select_table e c w).1 in
      (
        table,
        h,
        subst (Accounted principal.key_id table.1 (is_some (lookup request.model table.0)) w.1)
            (sym (proceed-answered (complete_by e c principal request) _ table w' h))
            (Accounted-after principal.key_id table.1 _ w.1 w'.1 _ (select_table-Adds e c b w)
              (complete_by-Accounted principal request table w')),
      )
