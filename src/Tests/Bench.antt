-- ===== src/Tests/Bench.antt =====
-- A concrete environment: a clock that advances by one tick a reading, a Redis that holds keys, and
-- a provider that gives the answers of a script.
use llm_gateway_rag.Common.{
  ℕ, suc, Bool, true, false, none, some, List, [], ◌∷◌, ◌||◌, ◌≡◌, str_eq, if◌then◌else◌,
}
use llm_gateway_rag.Common.Int.{pos}
use llm_gateway_rag.Routes.{Deployment, Pricing, Usage}
use llm_gateway_rag.Schemas.{ChatRequest, ProviderResponse, CallResult, Failure, Role}
use llm_gateway_rag.Environment.{Environment, Key, Command, Reply, Pulled}
use text.Mathlib.TextPositions.{eq_refl}

pub record World : Type 0 where
  pub time : ℕ
  pub keys : List Key
  pub answers : List (CallResult ProviderResponse)
  pub deltas : List Pulled

abbrev pub same_key : Key → Key → Bool
same_key (Key.fails a) (Key.fails b) = str_eq a b
same_key (Key.opened a) (Key.opened b) = str_eq a b
same_key (Key.probe a) (Key.probe b) = str_eq a b
same_key _ _ = false

abbrev pub holds : List Key → Key → Bool
holds [] k = false
holds (j ∷ ks) k = same_key j k || holds ks k

abbrev pub held : Key → World → Bool
held k w = holds w.keys k

abbrev pub without : List Key → Key → List Key
without [] k = []
without (j ∷ ks) k = let rest = without ks k in if same_key j k then rest else j ∷ rest

-- one command on the keys that are held
abbrev pub obey : Command → List Key → Reply × List Key
obey (Command.get k) ks = (if holds ks k then Reply.value 1 else Reply.nil, ks)
obey (Command.set k n true) ks = if holds ks k then (Reply.nil, ks) else (Reply.value 1, k ∷ ks)
obey (Command.set k n false) ks = (Reply.value 1, k ∷ ks)
obey (Command.incr k) ks = (Reply.integer (pos 3), k ∷ ks)
obey (Command.delete (k ∷ _)) ks = (Reply.integer (pos 1), without ks k)
obey _ ks = (Reply.nil, ks)

abbrev pub obey_all : List Command → List Key → List Reply × List Key
obey_all [] ks = ([], ks)
obey_all (c ∷ cs) ks =
    let (r, ks') = obey c ks in let (rs, ks'') = obey_all cs ks' in (r ∷ rs, ks'')

abbrev pub next_answer :
    List (CallResult ProviderResponse)
    → CallResult ProviderResponse × List (CallResult ProviderResponse)
next_answer [] = (CallResult.failed Failure.timeout, [])
next_answer (a ∷ rest) = (a, rest)

abbrev pub next_pull : List Pulled → Pulled × List Pulled
next_pull [] = (Pulled.exhausted, [])
next_pull (p ∷ ps) = (p, ps)

abbrev pub bench : Environment
bench = record {
  State = World;
  Iterator = Unit;
  clock = λ w. (pos w.time, record w { time = suc w.time });
  random = λ w. (0, w);
  sleep = λ t w. (tt, w);
  execute = λ cs w. let (rs, ks) = obey_all cs w.keys in (some rs, record w { keys = ks });
  can_stream = λ p. str_eq p "mock";
  complete = λ d q t w. let (a, rest) = next_answer w.answers in (a, record w { answers = rest });
  stream = λ d q w. (tt, w);
  pull = λ i t w. let (p, rest) = next_pull w.deltas in (p, record w { deltas = rest });
  aclose = λ i w. (tt, w);
  price_map = λ m p c. none;
}

-- the same, with a Redis that cannot be reached
abbrev pub offline : Environment
offline = record bench { execute = λ cs w. (none, w) }

abbrev pub world : World
world = record { time = 100; keys = []; answers = []; deltas = [] }

pub same_key_refl : (k : Key) → same_key k k ≡ true
same_key_refl (Key.fails a) = eq_refl a
same_key_refl (Key.opened a) = eq_refl a
same_key_refl (Key.probe a) = eq_refl a

abbrev pub price : Pricing
price = record { input_per_mtok = 2; output_per_mtok = 10 }

abbrev pub primary : Deployment
primary = record {
  name = "primary";
  provider = "litellm";
  model = "big";
  api_base = none;
  timeout = none;
  max_retries = 1;
  pricing = some price;
  self_hosted = false;
  options = [];
}

abbrev pub backup : Deployment
backup = record primary { name = "backup"; model = "small"; max_retries = 0 }

abbrev pub question : ChatRequest
question = record {
  model = "default";
  messages = record { role = Role.user; content = 104 ∷ 105 ∷ [] } ∷ [];
  temperature = none;
  max_tokens = none;
  stream = false;
  cache = true;
}

abbrev pub spent : Usage
spent = record { prompt_tokens = 5; completion_tokens = 7 }

abbrev pub hello : ProviderResponse
hello = record { content = 104 ∷ 105 ∷ []; usage = spent; model = "small"; finish_reason = "stop" }
