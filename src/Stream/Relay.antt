-- ===== src/Stream/Relay.antt =====
-- `_relay` of app/gateway/router.py, the generator behind `OpenStream.rest`, with `_estimate`,
-- `_settle`, `_record_interruption` and `_absorb`, closing the iterator left out. What the provider's iterator gives, one pull at a
-- time, and the client's hanging up are a list of events.
use llm_gateway_rag.Common.{
  ℕ, ◌+◌, String, Bool, true, false, Option, some, List, [], ◌∷◌, ◌++◌, length, or_else, ◌==◌,
  if◌then◌else◌, is_some,
}
use llm_gateway_rag.Common.Int.{pos}
use llm_gateway_rag.Common.Text.{Text, split}
use llm_gateway_rag.Common.Action.{Action, pure, ◌>>=◌, ◌>>◌}
use llm_gateway_rag.Routes.{Usage, compute_cost}
use llm_gateway_rag.Schemas.{StreamDelta, Failure, Attempt, Outcome}
use llm_gateway_rag.Environment.{Environment, Pulled}
use llm_gateway_rag.Router.{Session, failed, succeeded}
use llm_gateway_rag.Stream.{OpenStream, model_or}

pub data Event : Type 0 where
  pulled : Pulled → Event
  hang_up : Event

-- The generator between two events: the stream object, what went out and the words counted.
pub record Relay : Type 0 where
  pub opened : OpenStream
  pub delivered : List Text
  pub words : ℕ

pub data Ending : Type 0 where
  suspended completed client_gone : Ending
  interrupted : Failure → Text → Ending

-- `text.count(" ")`
abbrev pub count_spaces : Text → ℕ
count_spaces [] = 0
count_spaces (c ∷ t) = (if c == 32 then 1 else 0) + count_spaces t

abbrev pub is_empty : Text → Bool
is_empty [] = true
is_empty _ = false

-- `"".join(texts)`
unfoldable pub join : List Text → Text
join [] = []
join (t ∷ ts) = t ++ join ts

-- `_absorb`
unfoldable pub absorb : OpenStream → StreamDelta → OpenStream
absorb o d = record o {
  usage = or_else d.usage o.usage;
  reported_usage = if is_some d.usage then true else o.reported_usage;
  finish_reason = or_else d.finish_reason o.finish_reason;
  model = model_or d.model o.model;
}

abbrev pub interruption : OpenStream → Failure → Attempt
interruption o f = record {
  deployment = o.deployment.name;
  outcome = Outcome.stream_interrupted;
  latency = pos 0;
  error = some f;
}

module _ (price_map : String → ℕ → ℕ → Option ℕ) where
  -- `_estimate`
  unfoldable pub estimate : OpenStream → ℕ → OpenStream
  estimate o words =
      let usage : Usage = record { prompt_tokens = o.prompt_estimate; completion_tokens = words } in
      if o.reported_usage then o else record o {
        usage = usage;
        usage_estimated = true;
        cost_usd = compute_cost price_map o.deployment usage;
      }

  -- the usage that `_settle` bills
  abbrev pub billed_usage : OpenStream → Text → Usage
  billed_usage o text =
      if o.reported_usage
      then o.usage
      else record { prompt_tokens = o.prompt_estimate; completion_tokens = length (split text) }

  -- `_settle`
  unfoldable pub settle : OpenStream → Text → OpenStream
  settle o text =
      let usage = billed_usage o text in
      let cost = compute_cost price_map o.deployment usage in
      if o.settled then o else record o {
        settled = true;
        usage = usage;
        usage_estimated = if o.reported_usage then false else true;
        cost_usd = cost;
        charged = o.charged ++ record { usage = usage; cost = cost } ∷ [];
      }

  -- what the generator does before its loop
  unfoldable pub start : OpenStream → Relay
  unfolding absorb estimate
  start o =
      let content = o.first.content in
      let words = count_spaces content + (if is_empty content then 0 else 1) in
      record { opened = estimate (absorb o o.first) words; delivered = content ∷ []; words = words }

  -- a delta: what it reports is taken over, and its text is passed on if there is any
  unfoldable pub take_delta : Relay → StreamDelta → Relay
  unfolding absorb estimate
  take_delta g d =
      let o = absorb g.opened d in
      let words = g.words + count_spaces d.content in
      if is_empty d.content then record g { opened = o } else record {
        opened = estimate o words;
        delivered = g.delivered ++ d.content ∷ [];
        words = words;
      }

  abbrev pub settled_relay : Relay → Relay
  settled_relay g = record g { opened = settle g.opened (join g.delivered) }

abbrev pub yielded : StreamDelta → List StreamDelta
yielded d = if is_empty d.content then [] else d ∷ []

module _ (e : Environment) where
  open e use {price_map}

  abbrev finally_settled : Relay → Relay
  finally_settled g = settled_relay price_map g

  -- `_settle` at the break, `_record_interruption`, and `_settle` again in the `finally`
  unfoldable pub interrupt :
      Relay → Failure → Action (Session e) (Relay × List StreamDelta × Ending)
  interrupt g f = do
    let g' = finally_settled g
    let o = g'.opened
    let g'' = record g' { opened = record o { attempts = o.attempts ++ interruption o f ∷ [] } }
    failed e o.deployment.name
    pure (finally_settled g'', [], Ending.interrupted f (join g.delivered))

  -- the end of the iterator: the deployment is healthy, and the stream is settled
  unfoldable pub finish : Relay → Action (Session e) (Relay × List StreamDelta × Ending)
  finish g = do
    succeeded e g.opened.deployment.name
    let g' = finally_settled g
    pure (finally_settled g', [], Ending.completed)

  -- the loop, to the end of the stream or of the events: the relay, what was yielded, the ending
  unfoldable pub relay : Relay → List Event → Action (Session e) (Relay × List StreamDelta × Ending)
  relay g [] = pure (g, [], Ending.suspended)
  relay g (Event.hang_up ∷ events) = pure (finally_settled g, [], Ending.client_gone)
  relay g (Event.pulled Pulled.exhausted ∷ events) = finish g
  relay g (Event.pulled (Pulled.broken f) ∷ events) = interrupt g f
  relay g (Event.pulled (Pulled.delta d) ∷ events) = do
    (g', out, ending) ← relay (take_delta price_map g d) events
    pure (g', yielded d ++ out, ending)
