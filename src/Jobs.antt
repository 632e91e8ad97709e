-- ===== src/Jobs.antt =====
-- Ingestion jobs: their records (app/workers/jobs.py) and what the job code calls: Redis, the clock,
-- identifiers, the document pipeline and the queue that decides when an attempt runs.
pub mod Store
pub mod Service
pub mod Outcomes
pub mod Recorded
pub mod Inline
pub mod Deliveries
use llm_gateway_rag.Common.{ℕ, String, Bool, Option, List}
use llm_gateway_rag.Common.Int.{ℤ}
use llm_gateway_rag.Common.Dict.{Dict}
use llm_gateway_rag.Common.Action.{Action}

pub data JobStatus : Type 0 where
  queued processing done failed : JobStatus

-- The texts that `execute` writes to `error`: an exception's type and message, or one of the two
-- messages of the service itself.
pub data JobError : Type 0 where
  raised : String → String → JobError
  delivered_too_often : ℕ → JobError
  upload_expired : JobError

pub record IngestJob : Type 0 where
  pub job_id : String
  pub tenant_id : String
  pub filename : String
  pub content_type : Option String
  pub title : Option String
  pub size_bytes : ℕ
  pub status : JobStatus
  pub attempts : ℕ
  pub doc_id : Option String
  pub chunks : Option ℕ
  pub error : Option JobError
  pub retryable : Option Bool
  pub request_id : Option String
  pub created_at : ℤ
  pub updated_at : ℤ

-- `_job_key`, `_index_key`, the attempts key of a job, SEQUENCE_KEY, DLQ_KEY, STATS_KEY, the
-- payload keys of app/workers/payloads.py, and the broker's list of a queue.
pub data JobKey : Type 0 where
  record_of attempts_of : String → String → JobKey
  index_of upload queue_of : String → JobKey
  sequence dead_letters stats : JobKey

-- A writing command; a duration is a number of ticks.
pub data JobCommand : Type 0 where
  incr delete : JobKey → JobCommand
  set_record : JobKey → IngestJob → ℕ → JobCommand
  set_bytes : JobKey → List ℕ → ℕ → JobCommand
  zadd_nx : JobKey → String → ℕ → JobCommand
  expire : JobKey → ℕ → JobCommand
  lpush : JobKey → IngestJob → JobCommand
  ltrim : JobKey → ℤ → ℤ → JobCommand
  hincrby : JobKey → String → ℕ → JobCommand

pub record DocumentUpload : Type 0 where
  pub filename : String
  pub content_type : Option String
  pub content : List ℕ
  pub title : Option String

-- What `IngestionService.ingest` comes to: the document's id and its number of chunks, one of
-- PERMANENT_ERRORS, or another exception, with the exception's type and message.
pub data Ingested : Type 0 where
  ingested : String → ℕ → Ingested
  permanent transient : String → String → Ingested

pub record Platform : Type 1 where
  pub State : Type 0
  -- one pipeline, with the integers that its commands answer
  pub pipeline : List JobCommand → Action State (List ℕ)
  pub get_record : JobKey → Action State (Option IngestJob)
  pub mget : List JobKey → Action State (List (Option IngestJob))
  pub zrevrange : JobKey → ℤ → ℤ → Action State (List String)
  pub lrange : JobKey → ℤ → ℤ → Action State (List IngestJob)
  pub llen : JobKey → Action State ℕ
  pub hgetall : JobKey → Action State (Dict ℕ)
  pub get_bytes : JobKey → Action State (Option (List ℕ))
  pub now : Action State ℤ
  pub perf_counter : Action State ℕ
  pub uuid : Action State String
  pub request_id : Action State (Option String)
  pub ingest : String → DocumentUpload → Action State Ingested
  pub enqueue : IngestJob → String → Action State (Unit {0})
  pub sleep : ℕ → Action State (Unit {0})
