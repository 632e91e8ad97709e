-- ===== src/Jobs/Inline.antt =====
-- `InlineJobQueue._run` of app/workers/queue.py: the attempts at one job, in this process.
use llm_gateway_rag.Common.{ℕ, zero, suc, ◌+◌, ◌*◌, ◌-◌, ◌^◌, String, Option, none, some}
use llm_gateway_rag.Common.Action.{Action, pure, ◌>>=◌, ◌>>◌}
use llm_gateway_rag.Jobs.{IngestJob, Platform}
use llm_gateway_rag.Jobs.Service.{JobService, Executed, execute}

-- How `_run` ends: `execute` returned, or the rounds of the loop are over.
pub data Ran : Type 0 where
  returned : Executed → Ran
  rounds_over : Ran
  -- an exception other than `TransientJobError` left `execute`, and was logged
  crashed : Ran

-- `crash` tells whether such an exception leaves an attempt that starts in a state, and what it leaves behind.
module _ (p : Platform) (v : JobService) (backoff : ℕ) (crash : p.State → Option p.State) where
  open p use {State, sleep}

  -- after an attempt that asked to be retried, the loop waits and goes on
  unfoldable pub after_execute : ℕ → Executed → Action State Ran → Action State Ran
  after_execute attempt (Executed.retry_later e) again = do
    sleep (backoff * 2 ^ (attempt - 1))
    again
  after_execute attempt r again = pure (Ran.returned r)

  -- `for attempt in range(1, max_attempts + 1)`, with the rounds left and the round
  unfoldable pub run_rounds : IngestJob → String → ℕ → ℕ → Action State Ran
  run_rounds job payload_id zero attempt s = (Ran.rounds_over, s)
  run_rounds job payload_id (suc left) attempt s =
      let again = run_rounds job payload_id left (attempt + 1) in
      elim (crash s) [
        | some s' ↦ (Ran.crashed, s')
        | none ↦
            (do r ← execute p v job.tenant_id job.job_id payload_id; after_execute attempt r again)
              s
      ]

  unfoldable pub run_inline : IngestJob → String → Action State Ran
  run_inline job payload_id = run_rounds job payload_id v.max_attempts 1
