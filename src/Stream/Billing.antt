-- ===== src/Stream/Billing.antt =====
-- What a stream of app/gateway/router.py is billed for.
use llm_gateway_rag.Common.{
  ℕ, ◌+◌, ◌≡◌, inl, inr, refl, ◌∙◌, String, true, false, Option, none, some, List, [], ◌∷◌, ◌++◌,
  length, arith, Bool-cases, if◌then◌else◌,
}
use llm_gateway_rag.Common.Text.{Text, split}
use llm_gateway_rag.Routes.{Usage}
use llm_gateway_rag.Schemas.{StreamDelta, Attempt}
use llm_gateway_rag.Environment.{Environment, Pulled}
use llm_gateway_rag.Router.{Session}
use llm_gateway_rag.Stream.{OpenStream}
use llm_gateway_rag.Stream.Relay.{
  Event, Relay, Ending, join, absorb, estimate, count_spaces, is_empty, settle, start, take_delta,
  interruption, interrupt, finish, relay,
}
use mathlib.Core.Path.{subst}
use llm_gateway_rag.Stream.Charges.{
  Uncharged, settle-ChargedOnce, settle_again, start-Uncharged, take_delta-Uncharged,
}

abbrev pub newer : Option Usage → Option Usage → Option Usage
newer none r = r
newer (some u) r = some u

-- The last usage that a delta reports before the stream ends, after an earlier report.
abbrev pub last_report : Option Usage → List Event → Option Usage
last_report r (Event.pulled (Pulled.delta d) ∷ events) = last_report (newer d.usage r) events
last_report r _ = r

abbrev pub ReportsAs : Option Usage → OpenStream → Type 0
ReportsAs none o = o.reported_usage ≡ false
ReportsAs (some u) o = (o.reported_usage ≡ true) × (o.usage ≡ u)

-- The usage of a settled stream: what was reported, or else the estimate of the prompt and the words
-- of the delivered text, marked as an estimate.
abbrev pub BilledAs : Option Usage → ℕ → Text → OpenStream → Type 0
BilledAs none prompt text o =
    (o.usage ≡ record { prompt_tokens = prompt; completion_tokens = length (split text) })
    × (o.usage_estimated ≡ true)
BilledAs (some u) prompt text o = (o.usage ≡ u) × (o.usage_estimated ≡ false)

abbrev pub EndsBilled : Ending → Option Usage → ℕ → Text → OpenStream → Type 0
EndsBilled Ending.suspended r prompt text o = Unit
EndsBilled _ r prompt text o = BilledAs r prompt text o

noted-BilledAs :
    (r : Option Usage) (prompt : ℕ) (t : Text) (o : OpenStream) (a : Attempt)
    → BilledAs r prompt t o
    → BilledAs r prompt t (record o { attempts = o.attempts ++ a ∷ [] })
noted-BilledAs none prompt t o a h = h
noted-BilledAs (some u) prompt t o a h = h

newer-none : (u : Option Usage) → newer u none ≡ u
newer-none none = refl
newer-none (some u) = refl

absorb-ReportsAs :
    (u r : Option Usage) (o : OpenStream) (d : StreamDelta)
    → d.usage ≡ u
    → ReportsAs r o
    → ReportsAs (newer u r) (absorb o d)
unfolding absorb
absorb-ReportsAs none none o d p h = ground arith
absorb-ReportsAs none (some v) o d p h = ground arith
absorb-ReportsAs (some u) r o d p h = ground arith

module _ (price_map : String → ℕ → ℕ → Option ℕ) where
  settle-BilledAs :
      (r : Option Usage) (o : OpenStream) (prompt : ℕ) (t : Text)
      → o.settled ≡ false
      → o.prompt_estimate ≡ prompt
      → ReportsAs r o
      → BilledAs r prompt t (settle price_map o t)
  unfolding settle
  settle-BilledAs none o prompt t h q k = ground arith
  settle-BilledAs (some u) o prompt t h q k = ground arith

  estimate-ReportsAs :
      (r : Option Usage) (o : OpenStream) (n : ℕ)
      → ReportsAs r o
      → ReportsAs r (estimate price_map o n)
  unfolding estimate
  estimate-ReportsAs none o n h = ground arith
  estimate-ReportsAs (some u) o n h = ground arith

  take_delta-ReportsAs :
      (r : Option Usage) (g : Relay) (d : StreamDelta)
      → ReportsAs r g.opened
      → ReportsAs (newer d.usage r) (take_delta price_map g d).opened
  unfolding take_delta
  take_delta-ReportsAs r g d h =
      let o = absorb g.opened d in
      let reports = absorb-ReportsAs d.usage r g.opened d refl h in
      elim (Bool-cases (is_empty d.content)) [
        | inl p ↦ rw p reports
        | inr p ↦
            rw p (estimate-ReportsAs (newer d.usage r) o (g.words + count_spaces d.content) reports)
      ]

  start-ReportsAs :
      (o : OpenStream)
      → o.reported_usage ≡ false
      → ReportsAs o.first.usage (start price_map o).opened
  unfolding start
  start-ReportsAs o h =
      let content = o.first.content in
      estimate-ReportsAs o.first.usage (absorb o o.first)
        (count_spaces content + (if is_empty content then 0 else 1))
        (subst (λ r. ReportsAs r (absorb o o.first)) (newer-none o.first.usage)
          (absorb-ReportsAs o.first.usage none o o.first refl h))

  start-prompt : (o : OpenStream) → (start price_map o).opened.prompt_estimate ≡ o.prompt_estimate
  unfolding start
  start-prompt o = ground arith

  take_delta-prompt :
      (g : Relay) (d : StreamDelta)
      → (take_delta price_map g d).opened.prompt_estimate ≡ g.opened.prompt_estimate
  unfolding take_delta
  take_delta-prompt g d = ground arith

module _ (e : Environment) where
  open e use {price_map}

  relay-EndsBilled :
      (r : Option Usage) (g : Relay) (events : List Event) (s : Session e) (prompt : ℕ)
      → Uncharged g.opened
      → ReportsAs r g.opened
      → g.opened.prompt_estimate ≡ prompt
      → let (g', _, ending) = (relay e g events s).0 in
        EndsBilled ending (last_report r events) prompt (join g'.delivered) g'.opened
  unfolding relay interrupt finish
  relay-EndsBilled r g [] s prompt h k q = tt
  relay-EndsBilled r g (Event.hang_up ∷ events) s prompt h k q =
      settle-BilledAs price_map r g.opened prompt (join g.delivered) h.0 q k
  relay-EndsBilled r g (Event.pulled Pulled.exhausted ∷ events) s prompt h k q =
      let t = join g.delivered in
      let once = settle-ChargedOnce price_map g.opened t h in
      rw (settle_again price_map (settle price_map g.opened t) t once.0)
        (settle-BilledAs price_map r g.opened prompt t h.0 q k)
  relay-EndsBilled r g (Event.pulled (Pulled.broken f) ∷ events) s prompt h k q =
      let t = join g.delivered in
      let o = settle price_map g.opened t in
      let once = settle-ChargedOnce price_map g.opened t h in
      let noted = record o { attempts = o.attempts ++ interruption o f ∷ [] } in
      rw (settle_again price_map noted t once.0) (
        noted-BilledAs r prompt t o (interruption o f)
          (settle-BilledAs price_map r g.opened prompt t h.0 q k))
  relay-EndsBilled r g (Event.pulled (Pulled.delta d) ∷ events) s prompt h k q =
      relay-EndsBilled (newer d.usage r) (take_delta price_map g d) events s prompt
        (take_delta-Uncharged price_map g d h) (take_delta-ReportsAs price_map r g d k)
        (take_delta-prompt price_map g d ∙ q)

  -- When a stream that is relayed from its start ends, however it ends, its usage is the last that
  -- any delta reported, the first delta included; if none was reported it is the estimate of the
  -- prompt and the number of words of the delivered text, and is marked as an estimate.
  pub relay_bills :
      (o : OpenStream) (events : List Event) (s : Session e)
      → Uncharged o
      → o.reported_usage ≡ false
      → let (g, _, ending) = (relay e (start price_map o) events s).0 in
        EndsBilled ending
          (last_report o.first.usage events)
          o.prompt_estimate
          (join g.delivered)
          g.opened
  relay_bills o events s h k =
      relay-EndsBilled o.first.usage (start price_map o) events s o.prompt_estimate
        (start-Uncharged price_map o h) (start-ReportsAs price_map o k) (start-prompt price_map o)
