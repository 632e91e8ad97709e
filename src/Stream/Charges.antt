-- ===== src/Stream/Charges.antt =====
-- When a stream is charged, by the `_settle` of `_relay` in app/gateway/router.py.
use llm_gateway_rag.Common.{ℕ, ◌≡◌, String, true, false, Option, List, [], ◌∷◌, ◌++◌, arith}
use llm_gateway_rag.Common.Text.{Text}
use llm_gateway_rag.Schemas.{StreamDelta}
use llm_gateway_rag.Environment.{Environment, Pulled}
use llm_gateway_rag.Router.{Session}
use llm_gateway_rag.Stream.{OpenStream}
use llm_gateway_rag.Stream.Relay.{
  Event, Relay, Ending, join, settle, start, take_delta, interruption, interrupt, finish, relay,
}

-- Nothing has been charged yet.
abbrev pub Uncharged : OpenStream → Type 0
Uncharged o = (o.settled ≡ false) × (o.charged ≡ [])

-- One charge, of the usage and the cost that the stream object shows.
abbrev pub ChargedOnce : OpenStream → Type 0
ChargedOnce o =
    (o.settled ≡ true) × (o.charged ≡ record { usage = o.usage; cost = o.cost_usd } ∷ [])

abbrev pub ChargedAs : Ending → OpenStream → Type 0
ChargedAs Ending.suspended o = Uncharged o
ChargedAs _ o = ChargedOnce o

module _ (price_map : String → ℕ → ℕ → Option ℕ) where
  pub settle-ChargedOnce :
      (o : OpenStream) (t : Text) → Uncharged o → ChargedOnce (settle price_map o t)
  unfolding settle
  settle-ChargedOnce o t h = ground arith

  pub settle_again : (o : OpenStream) (t : Text) → o.settled ≡ true → settle price_map o t ≡ o
  unfolding settle
  settle_again o t h = rw h

  pub start-Uncharged : (o : OpenStream) → Uncharged o → Uncharged (start price_map o).opened
  unfolding start
  start-Uncharged o h = ground arith

  pub take_delta-Uncharged :
      (g : Relay) (d : StreamDelta)
      → Uncharged g.opened
      → Uncharged (take_delta price_map g d).opened
  unfolding take_delta
  take_delta-Uncharged g d h = ground arith

module _ (e : Environment) where
  open e use {price_map}

  relay-ChargedAs :
      (g : Relay) (events : List Event) (s : Session e)
      → Uncharged g.opened
      → let (g', _, ending) = (relay e g events s).0 in ChargedAs ending g'.opened
  unfolding relay interrupt finish
  relay-ChargedAs g [] s h = h
  relay-ChargedAs g (Event.hang_up ∷ events) s h =
      settle-ChargedOnce price_map g.opened (join g.delivered) h
  relay-ChargedAs g (Event.pulled Pulled.exhausted ∷ events) s h =
      let t = join g.delivered in
      let once = settle-ChargedOnce price_map g.opened t h in
      rw (settle_again price_map (settle price_map g.opened t) t once.0) once
  relay-ChargedAs g (Event.pulled (Pulled.broken f) ∷ events) s h =
      let t = join g.delivered in
      let o = settle price_map g.opened t in
      let once = settle-ChargedOnce price_map g.opened t h in
      let noted = record o { attempts = o.attempts ++ interruption o f ∷ [] } in
      rw (settle_again price_map noted t once.0) once
  relay-ChargedAs g (Event.pulled (Pulled.delta d) ∷ events) s h =
      relay-ChargedAs (take_delta price_map g d) events s (take_delta-Uncharged price_map g d h)

  -- A stream that is relayed from its start is charged exactly once when it ends, by completing, by
  -- breaking or by the client's hanging up, and the charge is the usage and the cost that the
  -- stream object then shows; while it runs nothing is charged.
  pub relay_charges_once :
      (o : OpenStream) (events : List Event) (s : Session e)
      → Uncharged o
      → let (g, _, ending) = (relay e (start price_map o) events s).0 in ChargedAs ending g.opened
  relay_charges_once o events s h =
      relay-ChargedAs (start price_map o) events s (start-Uncharged price_map o h)
