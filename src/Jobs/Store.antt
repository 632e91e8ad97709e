-- ===== src/Jobs/Store.antt =====
-- `JobStore` and `DeadLetterQueue` of app/workers/jobs.py, `PayloadStore` of app/workers/payloads.py.
use llm_gateway_rag.Common.{ℕ, String, Option, none, some, List, [], ◌∷◌, map}
use llm_gateway_rag.Common.Int.{pos, ◌-ℤ◌}
use llm_gateway_rag.Common.Dict.{Dict, insert}
use llm_gateway_rag.Common.Action.{Action, pure, ◌>>=◌, ◌>>◌}
use llm_gateway_rag.Jobs.{IngestJob, JobKey, JobCommand, Platform}

-- the reply of a pipeline's first command
abbrev pub first_reply : List ℕ → ℕ
first_reply [] = 0
first_reply (n ∷ ns) = n

-- `[... for r in raws if r]`
abbrev pub present : List (Option IngestJob) → List IngestJob
present [] = []
present (none ∷ js) = present js
present (some j ∷ js) = j ∷ present js

-- `dict.update`
abbrev pub update : Dict ℕ → Dict ℕ → Dict ℕ
update d [] = d
update d ((k, v) ∷ e) = update (insert k v d) e

abbrev pub no_stats : Dict ℕ
no_stats =
    ("submitted", 0) ∷ ("done", 0) ∷ ("failed", 0) ∷ ("retried", 0) ∷ ("duration_seconds", 0) ∷ []

module _ (p : Platform) where
  open p use {
    State, pipeline, get_record, mget, zrevrange, lrange, llen, hgetall, get_bytes, now, uuid,
  }

  unfoldable pub save : ℕ → IngestJob → Action State IngestJob
  save retention job = do
    t ← now
    let job' = record job { updated_at = t }
    sequence ← pipeline (JobCommand.incr JobKey.sequence ∷ [])
    pipeline (
        JobCommand.set_record (JobKey.record_of job.tenant_id job.job_id) job' retention
        ∷ JobCommand.zadd_nx (JobKey.index_of job.tenant_id) job.job_id (first_reply sequence)
        ∷ JobCommand.expire (JobKey.index_of job.tenant_id) retention
        ∷ [])
    pure job'

  unfoldable pub get : String → String → Action State (Option IngestJob)
  get tenant_id job_id = get_record (JobKey.record_of tenant_id job_id)

  unfoldable pub list_jobs : String → ℕ → Action State (List IngestJob)
  list_jobs tenant_id limit = do
    ids ← zrevrange (JobKey.index_of tenant_id) (pos 0) (pos limit -ℤ pos 1)
    elim ids [
      | [] ↦ pure []
      | j ∷ js ↦ (do raws ← mget (map (JobKey.record_of tenant_id) (j ∷ js)); pure (present raws))
    ]

  unfoldable pub start_attempt : ℕ → String → String → Action State ℕ
  start_attempt retention tenant_id job_id = do
    replies ← pipeline (
        JobCommand.incr (JobKey.attempts_of tenant_id job_id)
        ∷ JobCommand.expire (JobKey.attempts_of tenant_id job_id) retention
        ∷ [])
    pure (first_reply replies)

  unfoldable pub count : String → Action State (List ℕ)
  count outcome = pipeline (JobCommand.hincrby JobKey.stats outcome 1 ∷ [])

  unfoldable pub add_duration : ℕ → Action State (List ℕ)
  add_duration ticks = pipeline (JobCommand.hincrby JobKey.stats "duration_seconds" ticks ∷ [])

  unfoldable pub job_stats : Action State (Dict ℕ)
  job_stats = do raw ← hgetall JobKey.stats; pure (update no_stats raw)

  unfoldable pub queue_depth : String → Action State ℕ
  queue_depth name = llen (JobKey.queue_of name)

  unfoldable pub push : ℕ → IngestJob → Action State (List ℕ)
  push max_entries job = pipeline (
      JobCommand.lpush JobKey.dead_letters job
      ∷ JobCommand.ltrim JobKey.dead_letters (pos 0) (pos max_entries -ℤ pos 1)
      ∷ [])

  unfoldable pub list_dead : ℕ → Action State (List IngestJob)
  list_dead limit = lrange JobKey.dead_letters (pos 0) (pos limit -ℤ pos 1)

  unfoldable pub depth : Action State ℕ
  depth = llen JobKey.dead_letters

  unfoldable pub purge : Action State ℕ
  unfolding depth
  purge = do n ← depth; pipeline (JobCommand.delete JobKey.dead_letters ∷ []); pure n

  unfoldable pub put_payload : ℕ → List ℕ → Action State String
  put_payload ttl content = do
    id ← uuid
    pipeline (JobCommand.set_bytes (JobKey.upload id) content ttl ∷ [])
    pure id

  unfoldable pub get_payload : String → Action State (Option (List ℕ))
  get_payload id = get_bytes (JobKey.upload id)

  unfoldable pub delete_payload : String → Action State (List ℕ)
  delete_payload id = pipeline (JobCommand.delete (JobKey.upload id) ∷ [])
