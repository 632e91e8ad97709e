-- ===== src/Jobs/Recorded.antt =====
-- What an attempt at a job leaves in the job's record in Redis, app/workers/service.py.
use llm_gateway_rag.Common.{
  ℕ, ◌≡◌, ◌≢◌, inl, inr, refl, ◌∙◌, String, Bool, true, false, Option, none, some, List, ◌∷◌, All,
  leb, ltb, Bool-cases,
}
use llm_gateway_rag.Jobs.{JobStatus, JobError, IngestJob, Ingested, JobKey, JobCommand, Platform}
use llm_gateway_rag.Jobs.Store.{save, get, start_attempt, count, add_duration, push}
use llm_gateway_rag.Jobs.Service.{
  JobService, Executed, fail, complete_job, after_transient, after_ingest, with_payload,
  attempt_job, execute_found, execute,
}
use llm_gateway_rag.Jobs.Outcomes.{ExecutionEnds, execute-EndsAs}

abbrev pub key_of : JobCommand → JobKey
key_of (JobCommand.incr k) = k
key_of (JobCommand.delete k) = k
key_of (JobCommand.set_record k _ _) = k
key_of (JobCommand.set_bytes k _ _) = k
key_of (JobCommand.zadd_nx k _ _) = k
key_of (JobCommand.expire k _) = k
key_of (JobCommand.lpush k _) = k
key_of (JobCommand.ltrim k _ _) = k
key_of (JobCommand.hincrby k _ _) = k

-- The records in Redis, as documented: SET writes a record, and commands on other keys and readings of the clock
-- leave it alone. Nothing else writes it meanwhile, and it does not expire.
pub record Records (p : Platform) : Type 0 where
  pub held : String → String → p.State → Option IngestJob
  pub set :
      (t j : String) (job : IngestJob) (n : ℕ) (cs : List JobCommand) (s : p.State)
      → All (λ c. key_of c ≢ JobKey.record_of t j) cs
      → held t j (p.pipeline (JobCommand.set_record (JobKey.record_of t j) job n ∷ cs) s).1
        ≡ some job
  pub kept :
      (t j : String) (cs : List JobCommand) (s : p.State)
      → All (λ c. key_of c ≢ JobKey.record_of t j) cs
      → held t j (p.pipeline cs s).1 ≡ held t j s
  pub kept_perf_counter : (t j : String) (s : p.State) → held t j (p.perf_counter s).1 ≡ held t j s

module _ (p : Platform) (v : JobService) (r : Records p) where
  open p use {State}

  -- The record of this job is the job that the attempt returns, or is queued with the error for which it is to be
  -- retried.
  abbrev pub Recorded : IngestJob → Executed → State → Type 0
  Recorded job Executed.gone s = ⊥
  Recorded job (Executed.finished job') s = r.held job.tenant_id job.job_id s ≡ some job'
  Recorded job (Executed.retry_later e) s =
      (job' : IngestJob) × (r.held job.tenant_id job.job_id s ≡ some job')
      × (job'.status ≡ JobStatus.queued)
      × (job'.error ≡ some e)

  abbrev pub ExecutionRecorded : Option IngestJob → Executed → State → Type 0
  ExecutionRecorded none x s = x ≡ Executed.gone
  ExecutionRecorded (some job) x s = Recorded job x s

  save-held :
      (n : ℕ) (job : IngestJob) (s : State)
      → r.held job.tenant_id job.job_id (save p n job s).1 ≡ some (save p n job s).0
  unfolding save
  save-held n job s = r.set job.tenant_id job.job_id _ n _ _ ((λ e. cc), ((λ e. cc), tt))

  count-held :
      (job : IngestJob) (o : String) (s : State)
      → r.held job.tenant_id job.job_id (count p o s).1 ≡ r.held job.tenant_id job.job_id s
  unfolding count
  count-held job o s = r.kept job.tenant_id job.job_id _ s ((λ e. cc), tt)

  fail-Recorded :
      (job : IngestJob) (e : JobError) (b : Bool) (s : State)
      → let (x, s') = fail p v job e b s in Recorded job x s'
  unfolding fail push
  fail-Recorded job e b s =
      r.kept job.tenant_id job.job_id _ _ ((λ e. cc), ((λ e. cc), tt))
      ∙ count-held job "failed" _
      ∙ save-held _ _ s

  complete_job-Recorded :
      (job : IngestJob) (id : String) (t : ℕ) (d : String) (n : ℕ) (s : State)
      → let (x, s') = complete_job p v job id t d n s in Recorded job x s'
  unfolding complete_job add_duration
  complete_job-Recorded job id t d n s =
      r.kept job.tenant_id job.job_id _ _ ((λ e. cc), tt)
      ∙ r.kept_perf_counter job.tenant_id job.job_id _
      ∙ count-held job "done" _
      ∙ save-held _ _ _

  after_transient-Recorded :
      (job : IngestJob) (n : ℕ) (e : JobError) (s : State)
      → let (x, s') = after_transient p v job n e s in Recorded job x s'
  unfolding after_transient save
  after_transient-Recorded job n e s = elim (Bool-cases (leb v.max_attempts n)) [
    | inl h ↦ rw h (fail-Recorded job e true s)
    | inr h ↦
        let queued = record job { status = JobStatus.queued; error = some e } in
        let run = save p v.retention queued s in
        rw h (run.0, count-held job "retried" run.1 ∙ save-held v.retention queued s, refl, refl)
  ]

  after_ingest-Recorded :
      (job : IngestJob) (n : ℕ) (id : String) (t : ℕ) (i : Ingested) (s : State)
      → let (x, s') = after_ingest p v job n id t i s in Recorded job x s'
  unfolding after_ingest
  after_ingest-Recorded job n id t (Ingested.ingested d k) s = complete_job-Recorded job id t d k s
  after_ingest-Recorded job n id t (Ingested.permanent k m) s = fail-Recorded job _ _ s
  after_ingest-Recorded job n id t (Ingested.transient k m) s = after_transient-Recorded job n _ s

  with_payload-Recorded :
      (tenant : String) (job : IngestJob) (n : ℕ) (id : String) (c : Option (List ℕ)) (s : State)
      → let (x, s') = with_payload p v tenant job n id c s in Recorded job x s'
  unfolding with_payload
  with_payload-Recorded tenant job n id none s = fail-Recorded job _ _ s
  with_payload-Recorded tenant job n id (some c) s = after_ingest-Recorded job n id _ _ _

  attempt_job-Recorded :
      (tenant : String) (job : IngestJob) (id : String) (n : ℕ) (s : State)
      → let (x, s') = attempt_job p v tenant job id n s in Recorded job x s'
  unfolding attempt_job save
  attempt_job-Recorded tenant job id n s = elim (Bool-cases (ltb v.max_attempts n)) [
    | inl h ↦ rw h (fail-Recorded job (JobError.delivered_too_often n) false s)
    | inr h ↦ rw h (with_payload-Recorded tenant _ n id _ _)
  ]

  execute_found-Recorded :
      (tenant job_id payload_id : String) (found : Option IngestJob) (s : State)
      → let (x, s') = execute_found p v tenant job_id payload_id found s in
        ExecutionRecorded found x s'
  unfolding execute_found
  execute_found-Recorded tenant job_id payload_id none s = refl
  execute_found-Recorded tenant job_id payload_id (some job) s =
      attempt_job-Recorded tenant job payload_id _ _

  -- An attempt at a job whose record is gone returns nothing. Otherwise the job is done, with the document that
  -- its ingestion answered and no error; or it has failed, with its error, and is pushed on the dead-letter queue as
  -- the attempt's last act, as not retryable for a permanent error of the ingestion, a payload that is gone or too
  -- many deliveries, and as retryable for a transient one on the last attempt; or the attempt asks to be retried,
  -- which it does only for a transient error while attempts are left. The record in Redis is then the job that is
  -- returned, or is queued with the error, if Redis keeps its records as documented.
  pub execute-Ends :
      (tenant job_id payload_id : String) (s : State)
      → let (found, s₁) = get p tenant job_id s in
        let (attempt, _) = start_attempt p v.retention tenant job_id s₁ in
        let (x, s') = execute p v tenant job_id payload_id s in
        ExecutionEnds p v tenant payload_id found attempt x s' × ExecutionRecorded found x s'
  unfolding execute
  execute-Ends tenant job_id payload_id s = (
    execute-EndsAs p v tenant payload_id job_id s,
    execute_found-Recorded tenant job_id payload_id _ _,
  )
