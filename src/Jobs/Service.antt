-- ===== src/Jobs/Service.antt =====
-- `IngestionJobService` of app/workers/service.py: submitting a job, and one attempt at it.
use llm_gateway_rag.Common.{
  ℕ, ◌-◌, String, Bool, true, false, Option, none, some, List, length, leb, ltb, if◌then◌else◌,
}
use llm_gateway_rag.Common.Action.{Action, pure, ◌>>=◌, ◌>>◌}
use llm_gateway_rag.Jobs.{JobStatus, JobError, IngestJob, DocumentUpload, Ingested, Platform}
use llm_gateway_rag.Jobs.Store.{
  save, get, start_attempt, count, add_duration, push, put_payload, get_payload, delete_payload,
}

-- The service's parameters: the stores' retention and limits, and the attempts that a job has.
pub record JobService : Type 0 where
  pub retention : ℕ
  pub payload_ttl : ℕ
  pub max_entries : ℕ
  pub max_attempts : ℕ

-- How `execute` ends: it returns nothing, returns the job, or raises `TransientJobError`.
pub data Executed : Type 0 where
  gone : Executed
  finished : IngestJob → Executed
  retry_later : JobError → Executed

module _ (p : Platform) (v : JobService) where
  open p use {State, perf_counter, uuid, request_id, now, ingest, enqueue}

  unfoldable pub submit : String → DocumentUpload → Action State IngestJob
  submit tenant_id document = do
    payload_id ← put_payload p v.payload_ttl document.content
    id ← uuid
    request ← request_id
    t ← now
    t' ← now
    job ← save p v.retention (record {
      job_id = id;
      tenant_id = tenant_id;
      filename = document.filename;
      content_type = document.content_type;
      title = document.title;
      size_bytes = length document.content;
      status = JobStatus.queued;
      attempts = 0;
      doc_id = none;
      chunks = none;
      error = none;
      retryable = none;
      request_id = request;
      created_at = t;
      updated_at = t';
    })
    count p "submitted"
    enqueue job payload_id
    pure job

  -- `_fail`
  unfoldable pub fail : IngestJob → JobError → Bool → Action State Executed
  fail job error retryable = do
    job' ←
        save p v.retention
          (record job { status = JobStatus.failed; error = some error; retryable = some retryable })
    count p "failed"
    push p v.max_entries job'
    pure (Executed.finished job')

  -- after a successful `ingest`
  unfoldable pub complete_job : IngestJob → String → ℕ → String → ℕ → Action State Executed
  complete_job job payload_id started doc_id chunks = do
    delete_payload p payload_id
    job' ← save p v.retention (record job {
      status = JobStatus.done;
      doc_id = some doc_id;
      chunks = some chunks;
      error = none;
      retryable = none;
    })
    count p "done"
    ended ← perf_counter
    add_duration p (ended - started)
    pure (Executed.finished job')

  -- the last `except`: the job fails on its last attempt and is queued again before
  unfoldable pub after_transient : IngestJob → ℕ → JobError → Action State Executed
  unfolding fail
  after_transient job attempt error =
      if leb v.max_attempts attempt then fail job error true else (do
        save p v.retention (record job { status = JobStatus.queued; error = some error })
        count p "retried"
        pure (Executed.retry_later error))

  unfoldable pub after_ingest : IngestJob → ℕ → String → ℕ → Ingested → Action State Executed
  after_ingest job attempt payload_id started (Ingested.ingested doc_id chunks) =
      complete_job job payload_id started doc_id chunks
  after_ingest job attempt payload_id started (Ingested.permanent kind message) =
      fail job (JobError.raised kind message) false
  after_ingest job attempt payload_id started (Ingested.transient kind message) =
      after_transient job attempt (JobError.raised kind message)

  -- with the bytes that were uploaded, if they are still there
  unfoldable pub with_payload :
      String → IngestJob → ℕ → String → Option (List ℕ) → Action State Executed
  with_payload tenant_id job attempt payload_id none = fail job JobError.upload_expired false
  with_payload tenant_id job attempt payload_id (some content) = do
    started ← perf_counter
    result ← ingest tenant_id (record {
      filename = job.filename;
      content_type = job.content_type;
      content = content;
      title = job.title;
    })
    after_ingest job attempt payload_id started result

  -- one attempt, counted
  unfoldable pub attempt_job : String → IngestJob → String → ℕ → Action State Executed
  attempt_job tenant_id job payload_id attempt =
      if ltb v.max_attempts attempt
      then fail job (JobError.delivered_too_often attempt) false
      else (do
        job' ← save p v.retention (record job { status = JobStatus.processing; attempts = attempt })
        content ← get_payload p payload_id
        with_payload tenant_id job' attempt payload_id content)

  -- with the job's record, if it is still there
  unfoldable pub execute_found : String → String → String → Option IngestJob → Action State Executed
  execute_found tenant_id job_id payload_id none = pure Executed.gone
  execute_found tenant_id job_id payload_id (some job) = do
    attempt ← start_attempt p v.retention tenant_id job_id
    attempt_job tenant_id job payload_id attempt

  unfoldable pub execute : String → String → String → Action State Executed
  execute tenant_id job_id payload_id = do
    found ← get p tenant_id job_id
    execute_found tenant_id job_id payload_id found
