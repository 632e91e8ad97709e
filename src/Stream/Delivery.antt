-- ===== src/Stream/Delivery.antt =====
-- What reaches the client, and what the breaker is told when a stream ends.
use llm_gateway_rag.Common.{◌≡◌, refl, sym, ap, ◌∙◌, List, [], ◌∷◌, ◌++◌, map, Bool-cases, inl, inr}
use llm_gateway_rag.Common.Text.{Text}
use llm_gateway_rag.Schemas.{StreamDelta}
use llm_gateway_rag.Environment.{Environment, Pulled}
use llm_gateway_rag.Router.{Session, failed}
use llm_gateway_rag.Router.Answered.{IsHealthy}
use llm_gateway_rag.Stream.{OpenStream}
use llm_gateway_rag.Stream.Relay.{
  Event, Relay, Ending, join, is_empty, start, take_delta, yielded, interrupt, finish, relay,
}
use mathlib.Core.List.{append_assoc, append-nil, map-append}

abbrev pub contents : List StreamDelta → List Text
contents = map (λ d. d.content)

module _ (e : Environment) where
  open e use {price_map}

  take_delta_delivers :
      (g : Relay) (d : StreamDelta) (more : List Text)
      → (take_delta price_map g d).delivered ++ more ≡ g.delivered ++ (contents (yielded d) ++ more)
  unfolding take_delta
  take_delta_delivers g d more = elim (Bool-cases (is_empty d.content)) [
    | inl p ↦ rw p refl
    | inr p ↦ rw p (append_assoc g.delivered (d.content ∷ []) more)
  ]

  relay_delivers :
      (g : Relay) (events : List Event) (s : Session e)
      → let (g', out, _) = (relay e g events s).0 in g'.delivered ≡ g.delivered ++ contents out
  unfolding relay interrupt finish
  relay_delivers g [] s = sym (append-nil _)
  relay_delivers g (Event.hang_up ∷ events) s = sym (append-nil _)
  relay_delivers g (Event.pulled Pulled.exhausted ∷ events) s = sym (append-nil _)
  relay_delivers g (Event.pulled (Pulled.broken f) ∷ events) s = sym (append-nil _)
  relay_delivers g (Event.pulled (Pulled.delta d) ∷ events) s =
      let g' = take_delta price_map g d in
      let out = (relay e g' events s).0.1 in
      relay_delivers g' events s
      ∙ take_delta_delivers g d (contents out)
      ∙ ap (λ ts. g.delivered ++ ts) (sym (map-append (λ x. x.content) (yielded d) out))

  abbrev pub EndsAs : Ending → Relay → Session e → Session e → Type 0
  EndsAs Ending.suspended g s s' = s' ≡ s
  EndsAs Ending.client_gone g s s' = s' ≡ s
  EndsAs Ending.completed g s s' = IsHealthy e g.opened.deployment s'
  EndsAs (Ending.interrupted f text) g s s' =
      (text ≡ join g.delivered) × (s' ≡ (failed e g.opened.deployment.name s).1)

  -- The text kept for a stream is that of the first delta followed by that of every delta passed on
  -- to the client, in order.
  pub relay_delivered :
      (o : OpenStream) (events : List Event) (s : Session e)
      → let (g, out, _) = (relay e (start price_map o) events s).0 in
        g.delivered ≡ o.first.content ∷ contents out
  unfolding start
  relay_delivered o events s = relay_delivers (start price_map o) events s
