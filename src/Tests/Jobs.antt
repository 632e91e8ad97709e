-- ===== src/Tests/Jobs.antt =====
-- Ingestion jobs on concrete platforms: one job and a document pipeline that always fails, with a Redis that keeps
-- the delivery counter and the dead-letter queue; and one that succeeds, with a Redis that keeps the records.
use llm_gateway_rag.Common.{
  ℕ, String, ◌+◌, ◌≡◌, ◌≢◌, refl, ◌∙◌, ◌&&◌, Option, none, some, List, [], ◌∷◌, All, length, str_eq,
  str_eq_iff, arith, if◌then◌else◌,
}
use llm_gateway_rag.Common.Int.{pos}
use llm_gateway_rag.Jobs.{JobStatus, IngestJob, Ingested, JobKey, JobCommand, Platform}
use llm_gateway_rag.Jobs.Store.{get, start_attempt, get_payload, count, save, push}
use llm_gateway_rag.Jobs.Service.{
  JobService, execute, execute_found, attempt_job, with_payload, after_ingest, after_transient,
}
use llm_gateway_rag.Jobs.Outcomes.{ExecutionEnds}
use llm_gateway_rag.Jobs.Recorded.{key_of, Records, ExecutionRecorded, execute-Ends}
use llm_gateway_rag.Jobs.Inline.{run_inline, run_rounds, after_execute}
use llm_gateway_rag.Jobs.Deliveries.{Counter, Settled, run_inline-Settled}

abbrev job : IngestJob
job = record {
  job_id = "j";
  tenant_id = "t";
  filename = "f.txt";
  content_type = none;
  title = none;
  size_bytes = 1;
  status = JobStatus.queued;
  attempts = 0;
  doc_id = none;
  chunks = none;
  error = none;
  retryable = none;
  request_id = none;
  created_at = pos 0;
  updated_at = pos 0;
}

record Store : Type 0 where
  deliveries : ℕ
  stored : Option IngestJob
  dead : List IngestJob

abbrev run_command : JobCommand → Store → ℕ × Store
run_command (JobCommand.incr (JobKey.attempts_of t j)) s =
    if str_eq t "t" && str_eq j "j"
    then (s.deliveries + 1, record s { deliveries = s.deliveries + 1 })
    else (1, s)
run_command (JobCommand.set_record k j _) s = (1, record s { stored = some j })
run_command (JobCommand.lpush k j) s = (1, record s { dead = j ∷ s.dead })
run_command _ s = (1, s)

abbrev run_commands : List JobCommand → Store → List ℕ × Store
run_commands [] s = ([], s)
run_commands (c ∷ cs) s =
    let (n, s') = run_command c s in let (ns, s'') = run_commands cs s' in (n ∷ ns, s'')

abbrev failing : Platform
failing = record {
  State = Store;
  pipeline = run_commands;
  get_record = λ k s. (s.stored, s);
  mget = λ ks s. ([], s);
  zrevrange = λ k i j s. ([], s);
  lrange = λ k i j s. (s.dead, s);
  llen = λ k s. (length s.dead, s);
  hgetall = λ k s. ([], s);
  get_bytes = λ k s. (some (1 ∷ []), s);
  now = λ s. (pos 5, s);
  perf_counter = λ s. (7, s);
  uuid = λ s. ("j", s);
  request_id = λ s. (none, s);
  ingest = λ t d s. (Ingested.transient "ConnectionError" "refused", s);
  enqueue = λ j p s. (tt, s);
  sleep = λ n s. (tt, s);
}

abbrev service : JobService
service = record { retention = 100; payload_ttl = 50; max_entries = 10; max_attempts = 2 }

abbrev begun : Store
begun = record { deliveries = 0; stored = some job; dead = [] }

run_command-kept :
    (c : JobCommand) (s : Store)
    → key_of c ≢ JobKey.attempts_of "t" "j"
    → (run_command c s).1.deliveries ≡ s.deliveries
run_command-kept (JobCommand.incr (JobKey.attempts_of t j)) s h =
    ground (arith, h, str_eq_iff t "t", str_eq_iff j "j")
run_command-kept (JobCommand.incr (JobKey.record_of t j)) s h = refl
run_command-kept (JobCommand.incr (JobKey.index_of t)) s h = refl
run_command-kept (JobCommand.incr (JobKey.upload t)) s h = refl
run_command-kept (JobCommand.incr (JobKey.queue_of t)) s h = refl
run_command-kept (JobCommand.incr JobKey.sequence) s h = refl
run_command-kept (JobCommand.incr JobKey.dead_letters) s h = refl
run_command-kept (JobCommand.incr JobKey.stats) s h = refl
run_command-kept (JobCommand.delete k) s h = refl
run_command-kept (JobCommand.set_record k _ _) s h = refl
run_command-kept (JobCommand.set_bytes k _ _) s h = refl
run_command-kept (JobCommand.zadd_nx k _ _) s h = refl
run_command-kept (JobCommand.expire k _) s h = refl
run_command-kept (JobCommand.lpush k _) s h = refl
run_command-kept (JobCommand.ltrim k _ _) s h = refl
run_command-kept (JobCommand.hincrby k _ _) s h = refl

run_commands-kept :
    (cs : List JobCommand) (s : Store)
    → All (λ c. key_of c ≢ JobKey.attempts_of "t" "j") cs
    → (run_commands cs s).1.deliveries ≡ s.deliveries
run_commands-kept [] s h = refl
run_commands-kept (c ∷ cs) s h = run_commands-kept cs _ h.1 ∙ run_command-kept c s h.0

abbrev counter : Counter failing "t" "j"
counter = record {
  deliveries = λ s. s.deliveries;
  counted = λ r s. (refl, refl);
  kept = run_commands-kept;
  kept_get_record = λ k s. refl;
  kept_get_bytes = λ k s. refl;
  kept_now = λ s. refl;
  kept_perf_counter = λ s. refl;
  kept_ingest = λ t d s. refl;
  kept_sleep = λ n s. refl;
}

-- two attempts, and the job is in the dead-letter queue
runs_twice : length (run_inline failing service 100 (λ s. none) job "p" begun).1.dead ≡ 1
unfolding run_inline run_rounds after_execute execute execute_found get attempt_job start_attempt
    with_payload get_payload after_ingest after_transient count save push
runs_twice = refl

-- a Redis that keeps the records of all jobs
abbrev Held : Type 0
Held = String → String → Option IngestJob

abbrev put_one : JobCommand → Held → Held
put_one (JobCommand.set_record (JobKey.record_of t j) x _) s =
    λ t' j'. if str_eq t t' && str_eq j j' then some x else s t' j'
put_one _ s = s

abbrev put_all : List JobCommand → Held → Held
put_all [] s = s
put_all (c ∷ cs) s = put_all cs (put_one c s)

abbrev keeping : Platform
keeping = record {
  State = Held;
  pipeline = λ cs s. (1 ∷ [], put_all cs s);
  get_record = λ k s. (s "t" "j", s);
  mget = λ ks s. ([], s);
  zrevrange = λ k i j s. ([], s);
  lrange = λ k i j s. ([], s);
  llen = λ k s. (0, s);
  hgetall = λ k s. ([], s);
  get_bytes = λ k s. (some (1 ∷ []), s);
  now = λ s. (pos 5, s);
  perf_counter = λ s. (7, s);
  uuid = λ s. ("j", s);
  request_id = λ s. (none, s);
  ingest = λ t d s. (Ingested.ingested "d" 3, s);
  enqueue = λ j p s. (tt, s);
  sleep = λ n s. (tt, s);
}

put_one-kept :
    (c : JobCommand) (t j : String) (s : Held)
    → key_of c ≢ JobKey.record_of t j
    → put_one c s t j ≡ s t j
put_one-kept (JobCommand.set_record (JobKey.record_of t' j') x _) t j s h =
    ground (arith, h, str_eq_iff t' t, str_eq_iff j' j)
put_one-kept (JobCommand.set_record k x _) t j s h = refl
put_one-kept c t j s h = refl

put_all-kept :
    (cs : List JobCommand) (t j : String) (s : Held)
    → All (λ c. key_of c ≢ JobKey.record_of t j) cs
    → put_all cs s t j ≡ s t j
put_all-kept [] t j s h = refl
put_all-kept (c ∷ cs) t j s h = put_all-kept cs t j (put_one c s) h.1 ∙ put_one-kept c t j s h.0

put_record-held :
    (t j : String) (x : IngestJob) (s : Held)
    → put_one (JobCommand.set_record (JobKey.record_of t j) x 9) s t j ≡ some x
put_record-held t j x s = ground (arith, str_eq_iff t t, str_eq_iff j j)

abbrev records : Records keeping
records = record {
  held = λ t j s. s t j;
  set = λ t j x n cs s h. put_all-kept cs t j _ h ∙ put_record-held t j x s;
  kept = λ t j cs s h. put_all-kept cs t j s h;
  kept_perf_counter = λ t j s. refl;
}

abbrev one_job : Held
one_job t j = some job

execute-Ends_example :
    let (found, s₁) = get keeping "t" "j" one_job in
    let (attempt, _) = start_attempt keeping service.retention "t" "j" s₁ in
    let (r, s') = execute keeping service "t" "j" "p" one_job in
    ExecutionEnds keeping service "t" "p" found attempt r s'
    × ExecutionRecorded keeping service records found r s'
execute-Ends_example = execute-Ends keeping service records "t" "j" "p" one_job

run_inline-Settled_example : Settled (run_inline failing service 100 (λ s. none) job "p" begun).0
run_inline-Settled_example =
    run_inline-Settled failing service 100 (λ s. none) job "p" counter begun (omega arith)
