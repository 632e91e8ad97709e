-- ===== src/Schemas.antt =====
-- The messages that components exchange, app/gateway/schemas.py, and how a provider call can fail,
-- app/gateway/providers.py.
use llm_gateway_rag.Common.{ℕ, String, Bool, Option, List}
use llm_gateway_rag.Common.Int.{ℤ}
use llm_gateway_rag.Common.Text.{Text}
use llm_gateway_rag.Routes.{Usage}

pub data Role : Type 0 where
  system user assistant tool : Role

pub record ChatMessage : Type 0 where
  pub role : Role
  pub content : Text

-- A temperature is counted in hundredths.
pub record ChatRequest : Type 0 where
  pub model : String
  pub messages : List ChatMessage
  pub temperature : Option ℕ
  pub max_tokens : Option ℕ
  pub stream : Bool
  pub cache : Bool

pub record ProviderResponse : Type 0 where
  pub content : Text
  pub usage : Usage
  pub model : String
  pub finish_reason : String

pub record StreamDelta : Type 0 where
  pub content : Text
  pub finish_reason : Option String
  pub usage : Option Usage
  pub model : Option String

-- How a provider call ends without an answer. `provider_error` carries `retryable` and the message;
-- `unexpected` is any other exception.
pub data Failure : Type 0 where
  timeout : Failure
  provider_error : Bool → String → Failure
  unexpected : String → Failure
  ended : Failure  -- a stream that stops before any token

pub data CallResult (A : Type 0) : Type 0 where
  returned : A → CallResult A
  failed : Failure → CallResult A

pub data Outcome : Type 0 where
  success error timeout skipped_circuit_open client_error stream_interrupted : Outcome

pub record Attempt : Type 0 where
  pub deployment : String
  pub outcome : Outcome
  pub latency : ℤ
  pub error : Option Failure
