-- ===== src/Chat/Books.antt =====
-- What is kept of the calls of app/gateway/service.py: what was metered, what a rollout was told, and
-- what was put into the cache.
use llm_gateway_rag.Common.{
  ◌≡◌, refl, sym, ◌∙◌, ap, String, Bool, true, Option, none, some, List, [], ◌∷◌, ◌++◌,
  if◌then◌else◌, Bool-cases, inl, inr,
}
use mathlib.Core.List.{append_assoc, append-nil}
use llm_gateway_rag.Common.Fallible.{Fallible}
use llm_gateway_rag.Routes.{RoutingConfig}
use llm_gateway_rag.Schemas.{ChatRequest}
use llm_gateway_rag.Environment.{Environment}
use llm_gateway_rag.Rollout.{Variant}
use llm_gateway_rag.Metering.{Spending}
use llm_gateway_rag.SemanticCache.{CachedCompletion}
use llm_gateway_rag.Keys.{Principal}
use llm_gateway_rag.Chat.{
  Answer, Collaborators, proceed, World, called, answer_of, select_table, record_variant,
  lookup_cached, store_cached, uses_cache, hit_for,
}

-- what a call of the meter adds: a call that raises is taken to have added nothing
abbrev pub billed : String → Spending → Fallible (Unit {0}) → List (String × Spending)
billed key_id u (Fallible.done x) = (key_id, u) ∷ []
billed key_id u _ = []

-- Each collaborator keeps to its own books.
pub record Books (c : Collaborators) : Type 1 where
  pub metered : c.State → List (String × Spending)
  pub told : c.State → List (Variant × Bool)
  pub stored : c.State → List CachedCompletion
  pub lookup_keeps :
      (tenant_id : String) (request : ChatRequest) (s : c.State)
      → (metered (c.lookup tenant_id request s).1 ≡ metered s)
        × (told (c.lookup tenant_id request s).1 ≡ told s)
        × (stored (c.lookup tenant_id request s).1 ≡ stored s)
  pub select_keeps :
      (s : c.State)
      → (metered (c.select s).1 ≡ metered s)
        × (told (c.select s).1 ≡ told s)
        × (stored (c.select s).1 ≡ stored s)
  pub store_adds :
      (tenant_id : String) (request : ChatRequest) (completion : CachedCompletion) (s : c.State)
      → (metered (c.store tenant_id request completion s).1 ≡ metered s)
        × (told (c.store tenant_id request completion s).1 ≡ told s)
        × (stored (c.store tenant_id request completion s).1 ≡ stored s ++ completion ∷ [])
  pub meter_adds :
      (key_id : String) (u : Spending) (s : c.State)
      → (metered (c.meter key_id u s).1 ≡ metered s ++ billed key_id u (c.meter key_id u s).0)
        × (told (c.meter key_id u s).1 ≡ told s)
        × (stored (c.meter key_id u s).1 ≡ stored s)
  pub outcome_adds :
      (variant : Variant) (ok : Bool) (s : c.State)
      → (metered (c.record_outcome variant ok s).1 ≡ metered s)
        × (told (c.record_outcome variant ok s).1 ≡ told s ++ (variant, ok) ∷ [])
        × (stored (c.record_outcome variant ok s).1 ≡ stored s)
  -- the report of a success raises nothing
  pub success_told :
      (variant : Variant) (s : c.State) → (c.record_outcome variant true s).0 ≡ Fallible.done tt

abbrev pub told_of : Bool → Option Variant → Bool → List (Variant × Bool)
told_of has_rollout none ok = []
told_of has_rollout (some variant) ok = if has_rollout then (variant, ok) ∷ [] else []

pub proceed-answered :
    {A B S : Type 0} (f : A → S → Answer B × S) (a : Answer A) (x : A) (s : S)
    → a ≡ Answer.answered x
    → proceed f a s ≡ f x s
proceed-answered f a x s h = rw h refl

module _ (e : Environment) (c : Collaborators) where
  pub select_table-answered :
      (w : World e c)
      → (table : RoutingConfig × Option Variant) × ((select_table e c w).0 ≡ Answer.answered table)
  unfolding select_table
  select_table-answered w = elim (Bool-cases c.has_rollout) [
    | inl h ↦ rw h (((c.select w.1).0.0, some (c.select w.1).0.1), refl)
    | inr h ↦ rw h ((w.0.0.config, none), refl)
  ]

module _ (e : Environment) (c : Collaborators) (b : Books c) where
  -- The books of the second state are those of the first with these entries.
  abbrev pub Adds :
      List (String × Spending)
      → List (Variant × Bool)
      → List CachedCompletion
      → c.State
      → c.State
      → Type 0
  Adds ms ts cs s s' =
      (b.metered s' ≡ b.metered s ++ ms)
      × (b.told s' ≡ b.told s ++ ts)
      × (b.stored s' ≡ b.stored s ++ cs)

  pub Adds-none :
      (s s' : c.State)
      → (b.metered s' ≡ b.metered s) × (b.told s' ≡ b.told s) × (b.stored s' ≡ b.stored s)
      → Adds [] [] [] s s'
  Adds-none s s' (m, t, d) =
      (m ∙ sym (append-nil _), t ∙ sym (append-nil _), d ∙ sym (append-nil _))

  pub Adds-trans :
      (ms ms' : List (String × Spending)) (ts ts' : List (Variant × Bool))
      (cs cs' : List CachedCompletion) (s s' s'' : c.State)
      → Adds ms ts cs s s'
      → Adds ms' ts' cs' s' s''
      → Adds (ms ++ ms') (ts ++ ts') (cs ++ cs') s s''
  Adds-trans ms ms' ts ts' cs cs' s s' s'' (m, t, d) (m', t', d') = (
    m' ∙ ap (λ xs. xs ++ ms') m ∙ append_assoc (b.metered s) ms ms',
    t' ∙ ap (λ xs. xs ++ ts') t ∙ append_assoc (b.told s) ts ts',
    d' ∙ ap (λ xs. xs ++ cs') d ∙ append_assoc (b.stored s) cs cs',
  )

  pub hit_for-Adds :
      (principal : Principal) (request : ChatRequest) (w : World e c)
      → Adds [] [] [] w.1 (hit_for e c principal request w).1.1
  unfolding hit_for lookup_cached
  hit_for-Adds principal request w = elim (Bool-cases (uses_cache e c request)) [
    | inl h ↦ rw h (Adds-none w.1 _ (b.lookup_keeps principal.tenant_id request w.1))
    | inr h ↦ rw h (Adds-none w.1 w.1 (refl, refl, refl))
  ]

  pub select_table-Adds : (w : World e c) → Adds [] [] [] w.1 (select_table e c w).1.1
  unfolding select_table
  select_table-Adds w = elim (Bool-cases c.has_rollout) [
    | inl h ↦ rw h (Adds-none w.1 _ (b.select_keeps w.1))
    | inr h ↦ rw h (Adds-none w.1 w.1 (refl, refl, refl))
  ]

  pub record_variant-Adds :
      (variant : Option Variant) (ok : Bool) (w : World e c)
      → Adds [] (told_of c.has_rollout variant ok) [] w.1 (record_variant e c variant ok w).1.1
  unfolding record_variant
  record_variant-Adds none ok w = Adds-none w.1 w.1 (refl, refl, refl)
  record_variant-Adds (some variant) ok w =
      let (m, t, d) = b.outcome_adds variant ok w.1 in
      elim (Bool-cases c.has_rollout) [
        | inl h ↦ rw h (m ∙ sym (append-nil _), t, d ∙ sym (append-nil _))
        | inr h ↦ rw h (Adds-none w.1 w.1 (refl, refl, refl))
      ]

  -- The report of a success raises nothing.
  pub record_variant-answered :
      (variant : Option Variant) (w : World e c)
      → (record_variant e c variant true w).0 ≡ Answer.answered tt
  unfolding record_variant
  record_variant-answered none w = refl
  record_variant-answered (some variant) w = elim (Bool-cases c.has_rollout) [
    | inl h ↦ rw h (ap answer_of (b.success_told variant w.1))
    | inr h ↦ rw h refl
  ]

  -- the entry of the meter for an answer
  abbrev pub entries : {A : Type 0} → Answer A → String → Spending → List (String × Spending)
  entries (Answer.answered a) key_id u = (key_id, u) ∷ []
  entries (Answer.failed err) key_id u = []

  answer_of-entries :
      (key_id : String) (u : Spending) (r : Fallible (Unit {0}))
      → billed key_id u r ≡ entries (answer_of r) key_id u
  answer_of-entries key_id u (Fallible.done x) = refl
  answer_of-entries key_id u Fallible.overloaded = refl
  answer_of-entries key_id u (Fallible.raised err) = refl

  pub meter-Adds :
      (key_id : String) (u : Spending) (w : World e c)
      → Adds
          (entries (called e c (c.meter key_id u) w).0 key_id u)
          []
          []
          w.1
          (called e c (c.meter key_id u) w).1.1
  meter-Adds key_id u w =
      let (m, t, d) = b.meter_adds key_id u w.1 in
      (
        m ∙ ap (λ xs. b.metered w.1 ++ xs) (answer_of-entries key_id u _),
        t ∙ sym (append-nil _),
        d ∙ sym (append-nil _),
      )

  pub store_cached-Adds :
      (principal : Principal) (request : ChatRequest) (completion : CachedCompletion)
      (w : World e c)
      → Adds [] [] (completion ∷ []) w.1 (store_cached e c principal request completion w).1.1
  unfolding store_cached
  store_cached-Adds principal request completion w =
      let (m, t, d) = b.store_adds principal.tenant_id request completion w.1 in
      (m ∙ sym (append-nil _), t ∙ sym (append-nil _), d)
