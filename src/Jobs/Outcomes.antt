-- ===== src/Jobs/Outcomes.antt =====
-- How an attempt at a job ends, and what it leaves in the dead-letter queue.
use llm_gateway_rag.Common.{
  ℕ, ◌<◌, ◌≤◌, ◌≡◌, ◌⊎◌, inl, inr, refl, String, true, false, Option, none, some, List, leb, arith,
  Bool-cases, ltb,
}
use llm_gateway_rag.Jobs.{JobStatus, JobError, IngestJob, DocumentUpload, Ingested, Platform}
use llm_gateway_rag.Jobs.Store.{save, get, start_attempt, push, get_payload}
use llm_gateway_rag.Jobs.Service.{
  JobService, Executed, fail, complete_job, after_transient, after_ingest, with_payload,
  attempt_job, execute_found, execute,
}

module _ (p : Platform) (v : JobService) (tenant payload_id : String) where
  open p use {State}

  -- What an ingestion of the attempt came to.
  abbrev pub Came : Ingested → Type 0
  Came i = (before : State) × (u : DocumentUpload) × ((p.ingest tenant u before).0 ≡ i)

  -- The error of a permanent failure: too many deliveries, a payload that is gone, or what the ingestion raised.
  abbrev pub Permanent : ℕ → JobError → Type 0
  Permanent attempt (JobError.delivered_too_often n) = (n ≡ attempt) × (v.max_attempts < attempt)
  Permanent attempt JobError.upload_expired =
      (before : State) × ((get_payload p payload_id before).0 ≡ none)
  Permanent attempt (JobError.raised k m) = Came (Ingested.permanent k m)

  -- The error of a transient failure is what the ingestion raised.
  abbrev pub Transient : JobError → Type 0
  Transient (JobError.raised k m) = Came (Ingested.transient k m)
  Transient e = ⊥

  -- A job that is done has the document that its ingestion answered, and no error.
  abbrev pub Done : IngestJob → Type 0
  Done job =
      (job.status ≡ JobStatus.done)
      × (job.error ≡ none)
      × (d : String) × (n : ℕ) × Came (Ingested.ingested d n)
      × (job.doc_id ≡ some d)
      × (job.chunks ≡ some n)

  -- A failed job carries its error, is called retryable exactly for a transient one, which fails only on the last
  -- attempt, and is the last thing that was pushed on the dead-letter queue.
  abbrev pub Failed : ℕ → IngestJob → State → Type 0
  Failed attempt job s =
      (job.status ≡ JobStatus.failed)
      × ((e : JobError) × (job.error ≡ some e)
          × (((job.retryable ≡ some false) × Permanent attempt e)
              ⊎ ((job.retryable ≡ some true) × (v.max_attempts ≤ attempt) × Transient e)))
      × (before : State) × (s ≡ (push p v.max_entries job before).1)

  abbrev pub AttemptEnds : ℕ → Executed → State → Type 0
  AttemptEnds attempt Executed.gone s = ⊥
  AttemptEnds attempt (Executed.finished job) s = Done job ⊎ Failed attempt job s
  AttemptEnds attempt (Executed.retry_later e) s = (attempt < v.max_attempts) × Transient e

  abbrev pub ExecutionEnds : Option IngestJob → ℕ → Executed → State → Type 0
  ExecutionEnds none attempt r s = r ≡ Executed.gone
  ExecutionEnds (some job) attempt r s = AttemptEnds attempt r s

  fail-Ends :
      (job : IngestJob) (e : JobError) (attempt : ℕ) (s : State)
      → Permanent attempt e
      → let (r, s') = fail p v job e false s in AttemptEnds attempt r s'
  unfolding fail save
  fail-Ends job e attempt s h = inr (refl, (e, refl, inl (refl, h)), _, refl)

  fail-Ends_last :
      (job : IngestJob) (e : JobError) (attempt : ℕ) (s : State)
      → v.max_attempts ≤ attempt
      → Transient e
      → let (r, s') = fail p v job e true s in AttemptEnds attempt r s'
  unfolding fail save
  fail-Ends_last job e attempt s h t = inr (refl, (e, refl, inr (refl, h, t)), _, refl)

  after_transient-Ends :
      (job : IngestJob) (attempt : ℕ) (e : JobError) (s : State)
      → Transient e
      → let (r, s') = after_transient p v job attempt e s in AttemptEnds attempt r s'
  unfolding after_transient
  after_transient-Ends job attempt e s t = elim (Bool-cases (leb v.max_attempts attempt)) [
    | inl h ↦ rw h (fail-Ends_last job e attempt s (ground (arith, h)) t)
    | inr h ↦ rw h (ground (arith, h), t)
  ]

  after_ingest-Ends :
      (job : IngestJob) (attempt : ℕ) (started : ℕ) (i : Ingested) (s : State)
      → Came i
      → let (r, s') = after_ingest p v job attempt payload_id started i s in
        AttemptEnds attempt r s'
  unfolding after_ingest complete_job save
  after_ingest-Ends job attempt started (Ingested.ingested d n) s h =
      inl (refl, refl, d, n, h, refl, refl)
  after_ingest-Ends job attempt started (Ingested.permanent k m) s h =
      fail-Ends job (JobError.raised k m) attempt s h
  after_ingest-Ends job attempt started (Ingested.transient k m) s h =
      after_transient-Ends job attempt (JobError.raised k m) s h

  with_payload-Ends :
      (job : IngestJob) (attempt : ℕ) (c : Option (List ℕ)) (before s : State)
      → (get_payload p payload_id before).0 ≡ c
      → let (r, s') = with_payload p v tenant job attempt payload_id c s in AttemptEnds attempt r s'
  unfolding with_payload
  with_payload-Ends job attempt none before s h =
      fail-Ends job JobError.upload_expired attempt s (before, h)
  with_payload-Ends job attempt (some c) before s h =
      after_ingest-Ends job attempt _ _ _ (_, _, refl)

  attempt_job-Ends :
      (job : IngestJob) (attempt : ℕ) (s : State)
      → let (r, s') = attempt_job p v tenant job payload_id attempt s in AttemptEnds attempt r s'
  unfolding attempt_job
  attempt_job-Ends job attempt s = elim (Bool-cases (ltb v.max_attempts attempt)) [
    | inl h ↦
        rw h
          (fail-Ends job (JobError.delivered_too_often attempt) attempt s (refl, ground (arith, h)))
    | inr h ↦ rw h (with_payload-Ends _ attempt _ _ _ refl)
  ]

  execute_found-Ends :
      (job_id : String) (found : Option IngestJob) (s : State)
      → let (attempt, _) = start_attempt p v.retention tenant job_id s in
        let (r, s') = execute_found p v tenant job_id payload_id found s in
        ExecutionEnds found attempt r s'
  unfolding execute_found
  execute_found-Ends job_id none s = refl
  execute_found-Ends job_id (some job) s = attempt_job-Ends job _ _

  -- How an attempt ends, whatever is recorded of it.
  pub execute-EndsAs :
      (job_id : String) (s : State)
      → let (found, s₁) = get p tenant job_id s in
        let (attempt, _) = start_attempt p v.retention tenant job_id s₁ in
        let (r, s') = execute p v tenant job_id payload_id s in ExecutionEnds found attempt r s'
  unfolding execute
  execute-EndsAs job_id s = execute_found-Ends job_id _ _
