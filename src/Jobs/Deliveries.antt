-- ===== src/Jobs/Deliveries.antt =====
-- The delivery counter of a job in Redis, and the rounds of the inline queue.
use llm_gateway_rag.Common.{
  ℕ, zero, suc, ◌+◌, ◌<◌, ◌≤◌, ◌≡◌, ◌≢◌, inl, inr, ◌∙◌, String, Bool, true, false, Option, none,
  some, List, [], ◌∷◌, All, arith, leb, ltb, Bool-cases, Option-cases,
}
use llm_gateway_rag.Jobs.{
  JobError, IngestJob, Ingested, DocumentUpload, JobKey, JobCommand, Platform,
}
use llm_gateway_rag.Jobs.Store.{
  save, get, start_attempt, count, add_duration, push, get_payload, delete_payload, first_reply,
}
use llm_gateway_rag.Jobs.Service.{
  JobService, Executed, fail, complete_job, after_transient, after_ingest, with_payload,
  attempt_job, execute_found, execute,
}
use llm_gateway_rag.Jobs.Outcomes.{ExecutionEnds, execute-EndsAs}
use llm_gateway_rag.Jobs.Recorded.{key_of}
use llm_gateway_rag.Jobs.Inline.{Ran, after_execute, run_rounds, run_inline}

-- A Redis counter, as documented: INCR answers the new value, and only commands on the key change
-- it. Nothing else that a run calls writes to it, and the run ends within its retention.
pub record Counter (p : Platform) (tenant_id job_id : String) : Type 0 where
  pub deliveries : p.State → ℕ
  pub counted :
      (retention : ℕ) (s : p.State)
      → let key = JobKey.attempts_of tenant_id job_id in
        let (replies, s') =
          p.pipeline (JobCommand.incr key ∷ JobCommand.expire key retention ∷ []) s in
        (first_reply replies ≡ deliveries s + 1) × (deliveries s' ≡ deliveries s + 1)
  pub kept :
      (cs : List JobCommand) (s : p.State)
      → All (λ c. key_of c ≢ JobKey.attempts_of tenant_id job_id) cs
      → deliveries (p.pipeline cs s).1 ≡ deliveries s
  pub kept_get_record : (k : JobKey) (s : p.State) → deliveries (p.get_record k s).1 ≡ deliveries s
  pub kept_get_bytes : (k : JobKey) (s : p.State) → deliveries (p.get_bytes k s).1 ≡ deliveries s
  pub kept_now : (s : p.State) → deliveries (p.now s).1 ≡ deliveries s
  pub kept_perf_counter : (s : p.State) → deliveries (p.perf_counter s).1 ≡ deliveries s
  pub kept_ingest :
      (tenant : String) (d : DocumentUpload) (s : p.State)
      → deliveries (p.ingest tenant d s).1 ≡ deliveries s
  pub kept_sleep : (n : ℕ) (s : p.State) → deliveries (p.sleep n s).1 ≡ deliveries s

module _ (p : Platform) (v : JobService) (tenant_id job_id : String)
    (r : Counter p tenant_id job_id) where
  open p use {State}

  save-kept :
      (n : ℕ) (job : IngestJob) (s : State) → r.deliveries (save p n job s).1 ≡ r.deliveries s
  unfolding save
  save-kept n job s =
      r.kept _ _ ((λ e. cc), ((λ e. cc), ((λ e. cc), tt)))
      ∙ r.kept _ _ ((λ e. cc), tt)
      ∙ r.kept_now s

  count-kept : (o : String) (s : State) → r.deliveries (count p o s).1 ≡ r.deliveries s
  unfolding count
  count-kept o s = r.kept _ _ ((λ e. cc), tt)

  fail-kept :
      (job : IngestJob) (e : JobError) (b : Bool) (s : State)
      → r.deliveries (fail p v job e b s).1 ≡ r.deliveries s
  unfolding fail push
  fail-kept job e b s =
      r.kept _ _ ((λ e. cc), ((λ e. cc), tt)) ∙ count-kept "failed" _ ∙ save-kept _ _ s

  complete_job-kept :
      (job : IngestJob) (id : String) (t : ℕ) (d : String) (n : ℕ) (s : State)
      → r.deliveries (complete_job p v job id t d n s).1 ≡ r.deliveries s
  unfolding complete_job add_duration delete_payload
  complete_job-kept job id t d n s =
      r.kept _ _ ((λ e. cc), tt)
      ∙ r.kept_perf_counter _
      ∙ count-kept "done" _
      ∙ save-kept _ _ _
      ∙ r.kept _ _ ((λ e. cc), tt)

  after_transient-kept :
      (job : IngestJob) (n : ℕ) (e : JobError) (s : State)
      → r.deliveries (after_transient p v job n e s).1 ≡ r.deliveries s
  unfolding after_transient
  after_transient-kept job n e s = elim (Bool-cases (leb v.max_attempts n)) [
    | inl h ↦ rw h (fail-kept job e true s)
    | inr h ↦ rw h (count-kept "retried" _ ∙ save-kept _ _ s)
  ]

  after_ingest-kept :
      (job : IngestJob) (n : ℕ) (id : String) (t : ℕ) (i : Ingested) (s : State)
      → r.deliveries (after_ingest p v job n id t i s).1 ≡ r.deliveries s
  unfolding after_ingest
  after_ingest-kept job n id t (Ingested.ingested d k) s = complete_job-kept job id t d k s
  after_ingest-kept job n id t (Ingested.permanent k m) s = fail-kept job _ _ s
  after_ingest-kept job n id t (Ingested.transient k m) s = after_transient-kept job n _ s

  with_payload-kept :
      (job : IngestJob) (n : ℕ) (id : String) (c : Option (List ℕ)) (s : State)
      → r.deliveries (with_payload p v tenant_id job n id c s).1 ≡ r.deliveries s
  unfolding with_payload
  with_payload-kept job n id none s = fail-kept job _ _ s
  with_payload-kept job n id (some c) s =
      after_ingest-kept job n id _ _ _ ∙ r.kept_ingest _ _ _ ∙ r.kept_perf_counter s

  attempt_job-kept :
      (job : IngestJob) (id : String) (n : ℕ) (s : State)
      → r.deliveries (attempt_job p v tenant_id job id n s).1 ≡ r.deliveries s
  unfolding attempt_job get_payload
  attempt_job-kept job id n s = elim (Bool-cases (ltb v.max_attempts n)) [
    | inl h ↦ rw h (fail-kept job (JobError.delivered_too_often n) false s)
    | inr h ↦ rw h (with_payload-kept _ n id _ _ ∙ r.kept_get_bytes _ _ ∙ save-kept _ _ s)
  ]

  execute_found-counted :
      (job : IngestJob) (id : String) (s : State)
      → r.deliveries (execute_found p v tenant_id job_id id (some job) s).1 ≡ r.deliveries s + 1
  unfolding execute_found start_attempt
  execute_found-counted job id s = attempt_job-kept job id _ _ ∙ (r.counted v.retention s).1

  -- A retry is asked for only by an attempt that was counted and was not the last.
  abbrev pub Again : Executed → State → State → Type 0
  Again (Executed.retry_later e) s s' =
      (r.deliveries s' ≡ r.deliveries s + 1) × (r.deliveries s + 1 < v.max_attempts)
  Again _ s s' = Unit

  ends-Again :
      (payload_id : String) (job : IngestJob) (attempt : ℕ) (x : Executed) (s s₁ s' : State)
      → r.deliveries s₁ ≡ r.deliveries s
      → attempt ≡ r.deliveries s₁ + 1
      → r.deliveries s' ≡ r.deliveries s₁ + 1
      → ExecutionEnds p v tenant_id payload_id (some job) attempt x s'
      → Again x s s'
  ends-Again payload_id job attempt Executed.gone s s₁ s' same a c e = tt
  ends-Again payload_id job attempt (Executed.finished j) s s₁ s' same a c e = tt
  ends-Again payload_id job attempt (Executed.retry_later x) s s₁ s' same a c e =
      (omega (arith, c, same), omega (arith, a, same, e.0))

  execute_found-Again :
      (payload_id : String) (found : Option IngestJob) (s s₁ : State)
      → r.deliveries s₁ ≡ r.deliveries s
      → let (attempt, _) = start_attempt p v.retention tenant_id job_id s₁ in
        let (x, s') = execute_found p v tenant_id job_id payload_id found s₁ in
        ExecutionEnds p v tenant_id payload_id found attempt x s' → Again x s s'
  unfolding start_attempt execute_found
  execute_found-Again payload_id none s s₁ same ends = tt
  execute_found-Again payload_id (some job) s s₁ same ends =
      ends-Again payload_id job _ _ s s₁ _ same (r.counted v.retention s₁).0
        (execute_found-counted job payload_id s₁) ends

  execute-Again :
      (payload_id : String) (s : State)
      → let (x, s') = execute p v tenant_id job_id payload_id s in Again x s s'
  unfolding execute get
  execute-Again payload_id s =
      execute_found-Again payload_id _ s _ (r.kept_get_record _ s)
        (execute-EndsAs p v tenant_id payload_id job_id s)

-- The loop returned with a job that is done or has failed, or found no record of it, or its attempt crashed.
abbrev pub Settled : Ran → Type 0
Settled (Ran.returned (Executed.retry_later e)) = ⊥
Settled (Ran.returned x) = Unit
Settled Ran.crashed = Unit
Settled Ran.rounds_over = ⊥

module _ (p : Platform) (v : JobService) (backoff : ℕ) (crash : p.State → Option p.State)
    (job : IngestJob) (payload_id : String) (r : Counter p job.tenant_id job.job_id) where
  open p use {State}

  after_execute-Settled :
      (attempt : ℕ) (x : Executed) (again : State → Ran × State) (s s' : State)
      → Again p v job.tenant_id job.job_id r x s s'
      → ((s'' : State)
          → r.deliveries s'' ≡ r.deliveries s + 1
          → r.deliveries s + 1 < v.max_attempts
          → Settled (again s'').0)
      → Settled (after_execute p v backoff crash attempt x again s').0
  unfolding after_execute
  after_execute-Settled attempt (Executed.retry_later e) again s s' (c, l) f =
      f _ (r.kept_sleep _ s' ∙ c) l
  after_execute-Settled attempt Executed.gone again s s' a f = tt
  after_execute-Settled attempt (Executed.finished j) again s s' a f = tt

  run_rounds-Settled :
      (left attempt : ℕ) (s : State)
      → 1 ≤ left
      → v.max_attempts ≤ r.deliveries s + left
      → Settled (run_rounds p v backoff crash job payload_id left attempt s).0
  unfolding run_rounds
  run_rounds-Settled zero attempt s h k = absurd (omega arith)
  run_rounds-Settled (suc left) attempt s h k = elim (Option-cases (crash s)) [
    | inl e ↦
        rw (e, run_rounds)
          (after_execute-Settled attempt _ _ s _
            (execute-Again p v job.tenant_id job.job_id r payload_id s)
            (λ s'' c l.
              run_rounds-Settled left (attempt + 1) s'' (omega (arith, k, l))
                (omega (arith, k, c))))
    | inr (s', e) ↦ rw (e, run_rounds) tt
  ]

  -- The rounds of the inline queue are enough: if `max_attempts` is at least one, its loop never
  -- runs out of rounds after an attempt that asked to be retried. It returns from an attempt that finished the job
  -- or found no record of it, or that another exception left, whatever Redis and the document pipeline answer, if
  -- Redis counts the deliveries of the job as it documents. An attempt that crashed may leave the job as queued.
  pub run_inline-Settled :
      (s : State) → 1 ≤ v.max_attempts → Settled (run_inline p v backoff crash job payload_id s).0
  unfolding run_inline
  run_inline-Settled s h = run_rounds-Settled v.max_attempts 1 s h (omega arith)
