-- ===== src/Tests/Streams.antt =====
-- Streams on concrete events.
use llm_gateway_rag.Common.{false, none, some, List, [], ◌∷◌, ◌≡◌, refl}
use llm_gateway_rag.Common.Int.{pos}
use llm_gateway_rag.Common.Text.{Text}
use llm_gateway_rag.Schemas.{StreamDelta}
use llm_gateway_rag.Environment.{Pulled}
use llm_gateway_rag.Stream.{OpenStream, chunk_completion, last_delta}
use llm_gateway_rag.Stream.Relay.{Event, start, relay, join}
use llm_gateway_rag.Stream.Charges.{ChargedAs, relay_charges_once}
use llm_gateway_rag.Stream.Billing.{EndsBilled, relay_bills}
use llm_gateway_rag.Stream.Delivery.{contents, relay_delivered}
use llm_gateway_rag.Stream.Pieces.{EndsWith, texts, chunk_completion_whole}
use llm_gateway_rag.Tests.Bench.{bench, primary, hello, spent}
use llm_gateway_rag.Tests.Routing.{session}

abbrev token : Text → StreamDelta
token t = record { content = t; finish_reason = none; usage = none; model = none }

abbrev pub begun : OpenStream
begun = record {
  deployment = primary;
  model = "big";
  attempts = [];
  first = token (104 ∷ []);
  ttft = pos 3;
  prompt_estimate = 2;
  synthesized = false;
  usage = record { prompt_tokens = 0; completion_tokens = 0 };
  finish_reason = "stop";
  cost_usd = 0;
  usage_estimated = false;
  reported_usage = false;
  settled = false;
  charged = [];
}

-- one more token, and the client hangs up
abbrev events : List Event
events = Event.pulled (Pulled.delta (token (32 ∷ 105 ∷ []))) ∷ Event.hang_up ∷ []

-- a token, the usage report, and the end
abbrev full : List Event
full =
    Event.pulled (Pulled.delta (token (32 ∷ 105 ∷ [])))
    ∷ Event.pulled (Pulled.delta (record (token []) { usage = some spent }))
    ∷ Event.pulled Pulled.exhausted
    ∷ []

relay_charges_once_example :
    let (g, _, ending) = (relay bench (start bench.price_map begun) events session).0 in
    ChargedAs ending g.opened
relay_charges_once_example = relay_charges_once bench begun events session (refl, refl)

relay_bills_example :
    let (g, _, ending) = (relay bench (start bench.price_map begun) full session).0 in
    EndsBilled ending (some spent) 2 (join g.delivered) g.opened
relay_bills_example = relay_bills bench begun full session (refl, refl) refl

relay_delivered_example :
    let (g, out, _) = (relay bench (start bench.price_map begun) full session).0 in
    g.delivered ≡ (104 ∷ []) ∷ contents out
relay_delivered_example = relay_delivered bench begun full session

chunk_completion_whole_example :
    let (first, rest) = chunk_completion hello in
    (join (texts (first ∷ rest)) ≡ hello.content) × EndsWith (last_delta hello) rest
chunk_completion_whole_example = chunk_completion_whole hello
